-- ===== src/Pager/Clock.antt =====
-- How the clock goes through its queue.
use eecs.Base.{
  Memᴰ, ℕ, suc, ◌+◌, ◌≡◌, ◌≢◌, refl, sym, ap, subst, ◌∙◌, ◌⊎◌, inl, inr, true, false, List, [], ◌∷◌,
  ◌++◌, length, append_assoc, append-nil, length-append, Option, some, ◌==◌, arith, Bool-cases,
  if◌then◌else◌,
}
use eecs.Pager.Memory.{Memory, evict, second_chance, clock_loop, get_free_physical_page, is_nil}

-- The pages of a list are referenced, and stand in it once.
abbrev pub Referenced : Memory → List ℕ → Type 0
Referenced s [] = Unit {0}
Referenced s (p ∷ ps) = ((s.physical_table p).referenced ≡ true) × ¬ Memᴰ p ps × Referenced s ps

-- The state after the pages of a list at the front of the queue have had their second chance, where
-- `rest` is what follows them.
unfoldable passed : List ℕ → List ℕ → Memory → Memory
passed [] rest s = s
passed (p ∷ ps) rest s =
    passed ps (rest ++ p ∷ []) (second_chance p (record s { clock_queue = ps ++ rest }))

second_chance-other :
    (p x : ℕ) (s : Memory) → x ≢ p → (second_chance p s).physical_table x ≡ s.physical_table x
unfolding second_chance
second_chance-other p x s ne = elim (Bool-cases (x == p)) [
  | inl same ↦ absurd (ne (ground (arith, same)))
  | inr other ↦ rw other refl
]

second_chance-own : (p : ℕ) (s : Memory) → ((second_chance p s).physical_table p).referenced ≡ false
unfolding second_chance
second_chance-own p s = rw (same p) refl
  where
    same : (p : ℕ) → (p == p) ≡ true
    same p = ground arith

Referenced-second_chance :
    (p : ℕ) (q ps : List ℕ) (s : Memory)
    → ¬ Memᴰ p ps
    → Referenced s ps
    → Referenced (second_chance p (record s { clock_queue = q })) ps
Referenced-second_chance p q [] s out v = tt
Referenced-second_chance p q (x ∷ ps) s out v = (
  ap (λ y. y.referenced)
        (second_chance-other p x (record s { clock_queue = q }) (λ e. out (Memᴰ.head (sym e))))
      ∙ v.0,
  v.1,
  Referenced-second_chance p q ps s (λ m. out (Memᴰ.tail m)) v.2,
)

passed-other :
    (ps rest : List ℕ) (x : ℕ) (s : Memory)
    → ¬ Memᴰ x ps
    → (passed ps rest s).physical_table x ≡ s.physical_table x
unfolding passed
passed-other [] rest x s out = refl
passed-other (p ∷ ps) rest x s out =
    passed-other ps (rest ++ p ∷ []) x _ (λ m. out (Memᴰ.tail m))
    ∙ second_chance-other p x (record s { clock_queue = ps ++ rest }) (λ e. out (Memᴰ.head e))

passed-available :
    (ps rest : List ℕ) (s : Memory)
    → (passed ps rest s).available_physical_pages ≡ s.available_physical_pages
unfolding passed second_chance
passed-available [] rest s = refl
passed-available (p ∷ ps) rest s = passed-available ps (rest ++ p ∷ []) _

pub clock_loop-step :
    (fuel p : ℕ) (q : List ℕ) (s : Memory)
    → (s.physical_table p).referenced ≡ true
    → clock_loop (suc fuel) (p ∷ q) s
      ≡ clock_loop fuel (q ++ p ∷ []) (second_chance p (record s { clock_queue = q }))
unfolding clock_loop
clock_loop-step fuel p q s used = rw (used, clock_loop) refl

pub clock_loop-evict :
    (fuel p : ℕ) (q : List ℕ) (s : Memory)
    → (s.physical_table p).referenced ≡ false
    → clock_loop (suc fuel) (p ∷ q) s ≡ some (evict p (record s { clock_queue = q }))
unfolding clock_loop
clock_loop-evict fuel p q s unused =
    ap
      (λ b. elim b as (λ _. Option Memory) [
        | false ↦ some (evict p (record s { clock_queue = q }))
        | true ↦ clock_loop fuel (q ++ p ∷ []) (second_chance p (record s { clock_queue = q }))
      ])
      unused

fuel-eq : {m n : ℕ} (q : List ℕ) (s : Memory) → m ≡ n → clock_loop m q s ≡ clock_loop n q s
fuel-eq q s e = ap (λ k. clock_loop k q s) e

-- The loop on a queue whose first pages are referenced.
clock_loop-passed :
    (fuel : ℕ) (ps rest : List ℕ) (s : Memory)
    → Referenced s ps
    → clock_loop (length ps + fuel) (ps ++ rest) s ≡ clock_loop fuel (rest ++ ps) (passed ps rest s)
unfolding passed
clock_loop-passed fuel [] rest s v =
    fuel-eq rest s (omega arith) ∙ ap (λ q. clock_loop fuel q s) (sym (append-nil rest))
clock_loop-passed fuel (p ∷ ps) rest s v =
    fuel-eq (p ∷ (ps ++ rest)) s (omega arith)
    ∙ clock_loop-step (length ps + fuel) p (ps ++ rest) s v.0
    ∙ ap
        (λ q.
          clock_loop (length ps + fuel) q (second_chance p (record s { clock_queue = ps ++ rest })))
        (append_assoc ps rest (p ∷ []))
    ∙ clock_loop-passed fuel ps (rest ++ p ∷ [])
        (second_chance p (record s { clock_queue = ps ++ rest }))
        (Referenced-second_chance p (ps ++ rest) ps s v.1 v.2)
    ∙ ap
        (λ q.
          clock_loop fuel q
            (passed ps (rest ++ p ∷ []) (second_chance p (record s { clock_queue = ps ++ rest }))))
        (append_assoc rest (p ∷ []) ps)

-- What the clock does: page `victim` is available, and those before it in the queue stand behind.
pub record Freed (s : Memory) (victim : ℕ) (clock : List ℕ) (r : Option Memory) : Type 0 where
  pub after : Memory
  pub result : r ≡ some after
  pub available : after.available_physical_pages ≡ s.available_physical_pages ++ victim ∷ []
  pub queue : after.clock_queue ≡ clock

evict-Freed :
    (fuel victim : ℕ) (clock : List ℕ) (s s' : Memory)
    → s'.available_physical_pages ≡ s.available_physical_pages
    → (s'.physical_table victim).referenced ≡ false
    → Freed s victim clock (clock_loop (suc fuel) (victim ∷ clock) s')
evict-Freed fuel victim clock s s' e unused = record {
  after = evict victim (record s' { clock_queue = clock });
  result = clock_loop-evict fuel victim clock s' unused;
  available = unfold evict in ap (λ l. l ++ victim ∷ []) e;
  queue = unfold evict in refl;
}

-- The first page of the queue that is not referenced, if those before it are and stand there once.
unreferenced-Freed :
    (pre post : List ℕ) (victim fuel : ℕ) (s : Memory)
    → Referenced s pre
    → ¬ Memᴰ victim pre
    → (s.physical_table victim).referenced ≡ false
    → Freed s victim (post ++ pre) (clock_loop (length pre + suc fuel) (pre ++ victim ∷ post) s)
unreferenced-Freed pre post victim fuel s v out unused =
    subst (Freed s victim (post ++ pre))
      (sym (clock_loop-passed (suc fuel) pre (victim ∷ post) s v))
      (evict-Freed fuel victim (post ++ pre) s (passed pre (victim ∷ post) s)
        (passed-available pre (victim ∷ post) s)
        (ap (λ y. y.referenced) (passed-other pre (victim ∷ post) victim s out) ∙ unused))

-- If all are referenced, the first.
all-Freed :
    (post : List ℕ) (victim fuel : ℕ) (s : Memory)
    → Referenced s (victim ∷ post)
    → Freed s victim post (clock_loop (length (victim ∷ post) + suc fuel) ((victim ∷ post) ++ []) s)
all-Freed post victim fuel s v =
    subst (Freed s victim post) (sym (clock_loop-passed (suc fuel) (victim ∷ post) [] s v)) (
      evict-Freed fuel victim post s (passed (victim ∷ post) [] s)
        (passed-available (victim ∷ post) [] s) cleared)
  where
    cleared : ((passed (victim ∷ post) [] s).physical_table victim).referenced ≡ false
    cleared =
        unfold passed in
        ap (λ y. y.referenced)
          (passed-other post (victim ∷ []) victim
            (second_chance victim (record s { clock_queue = post ++ [] })) v.1)
        ∙ second_chance-own victim (record s { clock_queue = post ++ [] })

get_free_physical_page-loop :
    (s : Memory) (queue : List ℕ)
    → s.available_physical_pages ≡ []
    → s.clock_queue ≡ queue
    → get_free_physical_page (length s.clock_queue + 1) s ≡ clock_loop (length queue + 1) queue s
unfolding get_free_physical_page
get_free_physical_page-loop s queue none_free e =
    ap (λ l. if is_nil l then clock_loop (length s.clock_queue + 1) s.clock_queue s else some s)
      none_free
    ∙ ap (λ q. clock_loop (length q + 1) q s) e

loop-Freed :
    (pre post : List ℕ) (victim : ℕ) (s : Memory)
    → Referenced s pre
    → ¬ Memᴰ victim pre
    → ((s.physical_table victim).referenced ≡ false) ⊎ ((pre ≡ []) × Referenced s (victim ∷ post))
    → Freed s victim
        (post ++ pre)
        (clock_loop (length (pre ++ victim ∷ post) + 1) (pre ++ victim ∷ post) s)
loop-Freed pre post victim s v out (inl unused) =
    subst (Freed s victim (post ++ pre))
      (fuel-eq (pre ++ victim ∷ post) s (omega (arith, length-append pre (victim ∷ post))))
      (unreferenced-Freed pre post victim (length post + 1) s v out unused)
loop-Freed [] post victim s v out (inr (_, used)) =
    subst (λ l. Freed s victim l (clock_loop (length (victim ∷ post) + 1) (victim ∷ post) s))
      (sym (append-nil post))
      (subst (Freed s victim post)
        (fuel-eq ((victim ∷ post) ++ []) s (omega arith)
          ∙ ap (λ q. clock_loop (length (victim ∷ post) + 1) q s) (append-nil (victim ∷ post)))
        (all-Freed post victim 0 s used))
loop-Freed (p ∷ pre) post victim s v out (inr (empty, used)) = absurd (cons-nil empty)
  where
    cons-nil : ¬ (Path (List ℕ) (p ∷ pre) [])
    cons-nil k = cc

-- When no page is available, and the clock's queue is some referenced pages, each once, then `victim`,
-- which is not referenced, then others, or when all its pages are referenced, each once, and `victim`
-- is the first: with one round more than the queue is long the search ends, makes exactly `victim`
-- available, and leaves what followed it at the front of the queue and what preceded it at the end.
pub get_free_physical_page-Freed :
    (pre post : List ℕ) (victim : ℕ) (s : Memory)
    → s.available_physical_pages ≡ []
    → s.clock_queue ≡ pre ++ victim ∷ post
    → Referenced s pre
    → ¬ Memᴰ victim pre
    → ((s.physical_table victim).referenced ≡ false) ⊎ ((pre ≡ []) × Referenced s (victim ∷ post))
    → Freed s victim (post ++ pre) (get_free_physical_page (length s.clock_queue + 1) s)
get_free_physical_page-Freed pre post victim s none_free e v out c =
    subst (Freed s victim (post ++ pre))
      (sym (get_free_physical_page-loop s (pre ++ victim ∷ post) none_free e))
      (loop-Freed pre post victim s v out c)
