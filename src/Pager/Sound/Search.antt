-- ===== src/Pager/Sound/Search.antt =====
-- The search for a page ends, keeps the invariant and loses no data.
use eecs.Base.{
  ℕ, zero, suc, ◌+◌, ◌≤◌, ◌<◌, ◌≡◌, ◌≢◌, refl, sym, ap, subst, ◌∙◌, inl, inr, true, false, List, [],
  ◌∷◌, ◌++◌, length, Option, none, some, if◌then◌else◌, arith, Bool-cases,
}
use eecs.Pager.Files.{FileId, assign, assign_ne}
use eecs.Pager.Memory.{
  Page, FileEvent, PhysicalPage, Memory, put, evict, second_chance, clock_loop,
  get_free_physical_page, is_nil,
}
use eecs.Pager.Frames.{count, count-none, count_self, count-cons}
use eecs.Pager.Tables.{put_self, put-ne}
use eecs.Pager.Clock.{clock_loop-step, clock_loop-evict}
use eecs.Pager.Sound.{Files, Kept}
use eecs.Pager.Sound.Evict.{AllSound, once, p_in, second_chance-Sound, evict-Sound, evict-Kept}

-- How many pages of a list are referenced.
unfoldable pub references : (ℕ → PhysicalPage) → List ℕ → ℕ
references table [] = 0
references table (p ∷ ps) =
    let rest = references table ps in if (table p).referenced then suc rest else rest

references-length : (table : ℕ → PhysicalPage) (ps : List ℕ) → references table ps ≤ length ps
unfolding references
references-length table [] = omega arith
references-length table (p ∷ ps) = ground (arith, references-length table ps)

references-append :
    (table : ℕ → PhysicalPage) (ps qs : List ℕ)
    → references table (ps ++ qs) ≡ references table ps + references table qs
unfolding references
references-append table [] qs = omega arith
references-append table (p ∷ ps) qs = ground (arith, references-append table ps qs)

references-put :
    (table : ℕ → PhysicalPage) (ps : List ℕ) (p : ℕ) (x : PhysicalPage)
    → ((q : ℕ) → 1 ≤ count q ps → q ≢ p)
    → references (put table p x) ps ≡ references table ps
unfolding references
references-put table [] p x out = refl
references-put table (q ∷ ps) p x out =
    let e = put-ne table p q x (out q (omega (arith, count_self q ps))) in
    let ih = references-put table ps p x (λ r k. out r (omega (arith, count-cons r q ps))) in
    ap
      (λ y.
        if y.referenced then suc (references (put table p x) ps) else references (put table p x) ps)
      e
    ∙ ap (λ k. if (table q).referenced then suc k else k) ih

-- What a fault leaves as it is: the virtual pages, and which other blocks are not in memory or at the
-- zero page.
abbrev pub SteadyBut : FileId → Memory → Memory → Type 0
SteadyBut b s s' =
    (s'.peer_map ≡ s.peer_map)
    × (s'.id ≡ s.id)
    × ((i : FileId) → b ≢ i → s.peer_in_phys i ≡ none → s'.peer_in_phys i ≡ none)
    × ((i : FileId) → b ≢ i → s.peer_in_phys i ≡ some 0 → s'.peer_in_phys i ≡ some 0)

-- What the search leaves as it is: virtual pages, the pages that are not in memory, and those that
-- are at the zero page.
abbrev pub Steady : Memory → Memory → Type 0
Steady s s' =
    (s'.peer_map ≡ s.peer_map)
    × (s'.id ≡ s.id)
    × ((i : FileId) → s.peer_in_phys i ≡ none → s'.peer_in_phys i ≡ none)
    × ((i : FileId) → s.peer_in_phys i ≡ some 0 → s'.peer_in_phys i ≡ some 0)

-- A second chance takes one round.
chance-fuel :
    (fuel p : ℕ) (rest : List ℕ) (s : Memory)
    → ((q : ℕ) → 1 ≤ count q rest → q ≢ p)
    → (s.physical_table p).referenced ≡ true
    → references s.physical_table (p ∷ rest) < suc fuel
    → references (second_chance p (record s { clock_queue = rest })).physical_table (rest ++ p ∷ [])
      < fuel
unfolding second_chance references
chance-fuel fuel p rest s out used k =
    let chance = record (s.physical_table p) { referenced = false } in
    let table = put s.physical_table p chance in
    let a = references-append table rest (p ∷ []) in
    let b = references-put s.physical_table rest p chance out in
    let c : references table (p ∷ []) ≡ 0 =
      ap (λ x. if x.referenced then 1 else 0) (put_self s.physical_table p chance) in
    let d : references s.physical_table (p ∷ rest) ≡ suc (references s.physical_table rest) =
      ap
        (λ x.
          if x then suc (references s.physical_table rest) else references s.physical_table rest)
        used in
    omega (arith, a, b, c, d, k)

append-not_nil : (p : ℕ) (rest : List ℕ) → rest ++ p ∷ [] ≢ []
append-not_nil p [] e = cc
append-not_nil p (x ∷ rest) e = cc

module _ (read : List FileEvent → FileId → Option Page) (laws : Files read) (n : ℕ) where
  -- A page is available, and nothing is lost.
  pub record Found (s : Memory) (r : Option Memory) : Type 0 where
    pub after : Memory
    pub result : r ≡ some after
    pub sound : AllSound read n after
    pub kept : Kept read s after
    pub steady : Steady s after
    pub first : ℕ
    pub others : List ℕ
    pub available : after.available_physical_pages ≡ first ∷ others

  evict-Found :
      (fuel p : ℕ) (rest : List ℕ) (s : Memory)
      → AllSound read n (record s { clock_queue = p ∷ rest })
      → (s.physical_table p).referenced ≡ false
      → Found s (clock_loop (suc fuel) (p ∷ rest) s)
  unfolding evict
  evict-Found fuel p rest s h unused = record {
    after = evict p (record s { clock_queue = rest });
    result = clock_loop-evict fuel p rest s unused;
    sound = evict-Sound read n p rest s h laws unused;
    kept = evict-Kept read n p rest s h laws unused;
    steady = (refl, refl, gone, zero_page);
    first = (split s.available_physical_pages).0;
    others = (split s.available_physical_pages).1;
    available = (split s.available_physical_pages).2;
  }
    where
      split : (xs : List ℕ) → (x : ℕ) × (ys : List ℕ) × (xs ++ p ∷ [] ≡ x ∷ ys)
      split [] = (p, [], refl)
      split (x ∷ xs) = (x, xs ++ p ∷ [], refl)

      at_p : s.peer_in_phys ((s.physical_table p).id) ≡ some p
      at_p = h.holds p (omega (arith, count_self p rest))

      gone :
          (i : FileId)
          → s.peer_in_phys i ≡ none
          → assign s.peer_in_phys ((s.physical_table p).id) none i ≡ none
      gone i e =
          assign_ne s.peer_in_phys ((s.physical_table p).id) i none (λ same.
            let k : Path (Option ℕ) none (some p) = sym e ∙ sym (ap s.peer_in_phys same) ∙ at_p in
            cc)
          ∙ e

      zero_page :
          (i : FileId)
          → s.peer_in_phys i ≡ some 0
          → assign s.peer_in_phys ((s.physical_table p).id) none i ≡ some 0
      zero_page i e =
          assign_ne s.peer_in_phys ((s.physical_table p).id) i none (λ same.
            let k : Path (Option ℕ) (some 0) (some p) =
              sym e ∙ sym (ap s.peer_in_phys same) ∙ at_p in
            let z : 0 ≡ p = cc in omega (arith, (p_in read n p rest s h).0, z))
          ∙ e

  chance-Found :
      (fuel p : ℕ) (rest : List ℕ) (s : Memory)
      → (s.physical_table p).referenced ≡ true
      → Found
          (second_chance p (record s { clock_queue = rest }))
          (clock_loop fuel (rest ++ p ∷ []) (second_chance p (record s { clock_queue = rest })))
      → Found s (clock_loop (suc fuel) (p ∷ rest) s)
  unfolding second_chance
  chance-Found fuel p rest s used f = record {
    after = f.after;
    result = clock_loop-step fuel p rest s used ∙ f.result;
    sound = f.sound;
    kept = f.kept;
    steady = f.steady;
    first = f.first;
    others = f.others;
    available = f.available;
  }

  clock_loop-Found :
      (fuel : ℕ) (queue : List ℕ) (s : Memory)
      → AllSound read n (record s { clock_queue = queue })
      → references s.physical_table queue < fuel
      → queue ≢ []
      → Found s (clock_loop fuel queue s)
  unfolding second_chance references
  clock_loop-Found zero queue s h k ne = absurd (omega arith)
  clock_loop-Found (suc fuel) [] s h k ne = absurd (ne refl)
  clock_loop-Found (suc fuel) (p ∷ rest) s h k ne =
      elim (Bool-cases ((s.physical_table p).referenced)) [
        | inl used ↦ chance-Found fuel p rest s used (
            clock_loop-Found fuel (rest ++ p ∷ [])
              (second_chance p (record s { clock_queue = rest }))
              (second_chance-Sound read n p rest s h)
              (chance-fuel fuel p rest s (once read n p rest s h) used k) (append-not_nil p rest))
        | inr unused ↦ evict-Found fuel p rest s h unused
      ]

  search-Found :
      (s : Memory) (xs : List ℕ)
      → AllSound read n s
      → 2 ≤ n
      → s.available_physical_pages ≡ xs
      → Found s (get_free_physical_page (length s.clock_queue + 1) s)
  unfolding get_free_physical_page
  search-Found s (x ∷ xs) h k e = record {
    after = s;
    result =
        ap (λ l. if is_nil l then clock_loop (length s.clock_queue + 1) s.clock_queue s else some s)
          e;
    sound = h;
    kept = λ i pg c. c;
    steady = (refl, refl, λ i c. c, λ i c. c);
    first = x;
    others = xs;
    available = e;
  }
  search-Found s [] h k e =
      subst (Found s)
        (sym (
          ap
            (λ l.
              if is_nil l then clock_loop (length s.clock_queue + 1) s.clock_queue s else some s)
            e))
        (clock_loop-Found (length s.clock_queue + 1) s.clock_queue s h
          (omega (arith, references-length s.physical_table s.clock_queue))
          (λ c. omega (
            arith,
            (h.frames 1).0 (omega arith) k,
            count-none 1 s.available_physical_pages e,
            count-none 1 s.clock_queue c,
          )))

  -- On sound memory of at least two pages, of 2^32 bytes together at most, and with files that behave as
  -- vm_pager.h says, the search for a page ends, with a page available; the memory is sound again, no data is
  -- lost, and the virtual pages, the blocks that are not in memory and those at the zero page are as they were.
  pub get_free_physical_page-Found :
      (s : Memory)
      → AllSound read n s
      → 2 ≤ n
      → Found s (get_free_physical_page (length s.clock_queue + 1) s)
  get_free_physical_page-Found s h k = search-Found s s.available_physical_pages h k refl
