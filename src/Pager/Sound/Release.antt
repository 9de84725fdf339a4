-- ===== src/Pager/Sound/Release.antt =====
-- What vm_destroy does to the memory.
use eecs.Base.{
  if◌then◌else◌, not, ◌&&◌, Bool-cases, ◌==◌, Bool, true, Memᴰ, ℕ, ◌≤◌, ◌≡◌, ◌≢◌, refl, sym, ap,
  subst, ◌∙◌, ◌⊎◌, inl, inr, false, List, [], ◌∷◌, ◌++◌, Option, none, some, arith,
}
use mathlib.Core.List.Memᴰ
use eecs.Pager.Files.{is_swap_backed, FileId, assign, assign_self, assign_ne, FileId-cases}
use eecs.Pager.Memory.{Page, FileEvent, PhysicalPage, Memory, put}
use eecs.Pager.Faults.{check_residence, is_some}
use eecs.Pager.Processes.{release_page, remove_first, free_page}
use eecs.Pager.Frames.{
  count, remove_first-Mem, count-remove_first_self, count-remove_first_other, Frames-bounds,
  Frames-free,
}
use eecs.Pager.Tables.{put-ne, put-same}
use eecs.Pager.Sound.{Accessible}
use eecs.Pager.Sound.Evict.{AllSound}

module _ (read : List FileEvent → FileId → Option Page) (n : ℕ) where
  -- Fewer virtual pages.
  pub fewer-Sound :
      (s : Memory) (peers : FileId → List ℕ)
      → AllSound read n s
      → ((i : FileId) (w : ℕ) → Memᴰ w (peers i) → Memᴰ w (s.peer_map i))
      → AllSound read n (record s { peer_map = peers })
  fewer-Sound s peers h old = record {
    small = h.small;
    frames = h.frames;
    holds = h.holds;
    back = h.back;
    member = λ i w m. h.member i w (old i w m);
    linked = λ i w p o m e. h.linked i w p o (old i w m) e;
    readable = λ i w o m e. h.readable i w o (old i w m) e;
    writable = λ i w o m e. h.writable i w o (old i w m) e;
    clean = h.clean;
    accessible = h.accessible;
    stored = λ i w m b e. h.stored i w (old i w m) b e;
    zero_page = h.zero_page;
    zero_swap = h.zero_swap;
    zero_clean = h.zero_clean;
  }

  -- The physical page of a block that no virtual page has.
  module _ (v q : ℕ) (s : Memory) (h : AllSound read n s) (unmapped : s.peer_map (s.id v) ≡ [])
      (there : s.peer_in_phys (s.id v) ≡ some q) (entry_there : (s.entry v).ppage ≡ q)
      (not_zero : q ≢ 0) where
    none_mapped : (j : FileId) (w : ℕ) → Memᴰ w (s.peer_map j) → s.id v ≢ j
    none_mapped j w m e = Memᴰ.not-nil (subst (Memᴰ w) (ap s.peer_map (sym e) ∙ unmapped) m)

    q_in : (1 ≤ count q s.clock_queue) × ((s.physical_table q).id ≡ s.id v)
    q_in = elim (h.back (s.id v) q there) [ inl z ↦ absurd (not_zero z) | inr b ↦ b ]

    abbrev clock' : List ℕ
    clock' = remove_first q s.clock_queue

    once : (p : ℕ) → 1 ≤ count p clock' → p ≢ q
    once p k e =
        let b =
          Frames-bounds n q s.available_physical_pages s.clock_queue h.frames
            (omega (arith, q_in.0)) in
        omega
          (arith, count-remove_first_self q s.clock_queue, b.2, subst (λ x. 1 ≤ count x clock') e k)

    before : (p : ℕ) → 1 ≤ count p clock' → 1 ≤ count p s.clock_queue
    before p k = omega (arith, count-remove_first_other p q s.clock_queue (once p k), k)

    abbrev cleaned : PhysicalPage
    cleaned = record (s.physical_table q) { dirty = false }

    abbrev freed : Memory
    freed = record s {
      physical_table = put s.physical_table q cleaned;
      available_physical_pages = s.available_physical_pages ++ q ∷ [];
      clock_queue = clock';
      peer_in_phys = assign s.peer_in_phys (s.id v) none;
    }

    other : (p : ℕ) → p ≢ q → put s.physical_table q cleaned p ≡ s.physical_table p
    other p ne = put-ne s.physical_table q p cleaned ne

    same_id : (p : ℕ) → (put s.physical_table q cleaned p).id ≡ (s.physical_table p).id
    same_id p = put-same (λ x. x.id) s.physical_table q p cleaned refl

    still : (j : FileId) → s.id v ≢ j → freed.peer_in_phys j ≡ s.peer_in_phys j
    still j ne = assign_ne s.peer_in_phys (s.id v) j none ne

    was :
        (j : FileId) (p : ℕ)
        → freed.peer_in_phys j ≡ some p
        → (s.id v ≢ j) × (s.peer_in_phys j ≡ some p)
    was j p e = elim (FileId-cases (s.id v) j) [
      | inl same ↦
          let k : Path (Option ℕ) none (some p) =
            sym (assign_self s.peer_in_phys (s.id v) none) ∙ ap freed.peer_in_phys same ∙ e in
          cc
      | inr ne ↦ (ne, sym (still j ne) ∙ e)
    ]

    -- A block in memory is at another page.
    apart : (j : FileId) (p : ℕ) → s.id v ≢ j → s.peer_in_phys j ≡ some p → p ≢ q
    apart j p ne e same = elim (h.back j p e) [
      | inl z ↦ not_zero (sym same ∙ z)
      | inr b ↦ ne (sym q_in.1 ∙ ap (λ x. (s.physical_table x).id) (sym same) ∙ b.1)
    ]

    freed-holds :
        (p : ℕ)
        → 1 ≤ count p clock'
        → freed.peer_in_phys ((put s.physical_table q cleaned p).id) ≡ some p
    freed-holds p k =
        ap freed.peer_in_phys (same_id p)
        ∙ still ((s.physical_table p).id) ne
        ∙ h.holds p (before p k)
      where
        ne : s.id v ≢ (s.physical_table p).id
        ne e =
            let a : Path (Option ℕ) (some p) (some q) =
              sym (h.holds p (before p k)) ∙ ap s.peer_in_phys (sym e) ∙ there in
            let b : p ≡ q = cc in once p k b

    freed-back :
        (j : FileId) (p : ℕ)
        → freed.peer_in_phys j ≡ some p
        → (p ≡ 0) ⊎ ((1 ≤ count p clock') × ((put s.physical_table q cleaned p).id ≡ j))
    freed-back j p e =
        let w = was j p e in
        elim (h.back j p w.1) [
          | inl z ↦ inl z
          | inr b ↦ inr (
            omega (arith, count-remove_first_other p q s.clock_queue (apart j p w.0 w.1), b.0),
            same_id p ∙ b.1,
          )
        ]

    freed-Sound : AllSound read n freed
    freed-Sound = record {
      small = h.small;
      frames = Frames-free n q s.available_physical_pages s.clock_queue q_in.0 h.frames;
      holds = freed-holds;
      back = freed-back;
      member = h.member;
      linked = λ j w p o m e. h.linked j w p o m (was j p e).1;
      readable = λ j w o m e.
          let r = h.readable j w o m e in
          let ne = none_mapped j w m in
          (
            r.0,
            still j ne ∙ r.1,
            elim r.2 [
              | inl z ↦ inl z
              | inr u ↦ inr (ap (λ x. x.referenced) (other r.0 (apart j r.0 ne r.1)) ∙ u)
            ],
          );
      writable = λ j w o m e.
          let r = h.writable j w o m e in
          let ne = none_mapped j w m in
          let same = other r.0 (apart j r.0 ne r.1) in
          (r.0, still j ne ∙ r.1, ap (λ x. x.dirty) same ∙ r.2, ap (λ x. x.referenced) same ∙ r.3);
      clean = λ p o k d.
          ap (read s.log) (same_id p)
          ∙ h.clean p o (before p k) (sym (ap (λ x. x.dirty) (other p (once p k))) ∙ d);
      accessible =
          λ p k. subst (Accessible read s.log) (sym (same_id p)) (h.accessible p (before p k));
      stored = λ j w m b e. h.stored j w m b (sym (still j (none_mapped j w m)) ∙ e);
      zero_page = h.zero_page;
      zero_swap = λ j e. h.zero_swap j (was j 0 e).1;
      zero_clean = ap (λ x. x.dirty) (other 0 (λ e. not_zero (sym e))) ∙ h.zero_clean;
    }

    pub free_page-Sound : AllSound read n (free_page v s)
    unfolding free_page
    free_page-Sound =
        subst
          (λ p. AllSound read n (record s {
            physical_table = put s.physical_table p (record (s.physical_table p) { dirty = false });
            available_physical_pages = s.available_physical_pages ++ p ∷ [];
            clock_queue = remove_first p s.clock_queue;
            peer_in_phys = assign s.peer_in_phys (s.id v) none;
          }))
          (sym entry_there) freed-Sound

  -- What release_page does.
  pub record Released (v : ℕ) (s after : Memory) : Type 0 where
    pub sound : AllSound read n after
    pub same_id : after.id ≡ s.id
    pub peers : after.peer_map ≡ assign s.peer_map (s.id v) (remove_first v (s.peer_map (s.id v)))
    pub elsewhere : (i : FileId) → s.id v ≢ i → after.peer_in_phys i ≡ s.peer_in_phys i
    pub gone :
        is_swap_backed (s.id v) ≡ true
        → (after.peer_in_phys (s.id v) ≡ none) ⊎ (after.peer_in_phys (s.id v) ≡ some 0)

  module _ (v : ℕ) (s : Memory) (h : AllSound read n s) (mapped : Memᴰ v (s.peer_map (s.id v)))
      (single : is_swap_backed (s.id v) ≡ true → s.peer_map (s.id v) ≡ v ∷ []) where
    abbrev peers' : FileId → List ℕ
    peers' = assign s.peer_map (s.id v) (remove_first v (s.peer_map (s.id v)))

    abbrev unmapped : Memory
    unmapped = record s { peer_map = peers' }

    pub peers-old : (i : FileId) (w : ℕ) → Memᴰ w (peers' i) → Memᴰ w (s.peer_map i)
    peers-old i w m = elim (FileId-cases (s.id v) i) [
      | inl same ↦ subst (λ x. Memᴰ w (peers' x) → Memᴰ w (s.peer_map x)) same own m
      | inr ne ↦ subst (Memᴰ w) (assign_ne s.peer_map (s.id v) i _ ne) m
    ]
      where
        own : Memᴰ w (peers' (s.id v)) → Memᴰ w (s.peer_map (s.id v))
        own m =
            remove_first-Mem w v (s.peer_map (s.id v))
              (subst (Memᴰ w) (assign_self s.peer_map (s.id v) _) m)

    unmapped-Sound : AllSound read n unmapped
    unmapped-Sound = fewer-Sound s peers' h peers-old

    pub only : is_swap_backed (s.id v) ≡ true → peers' (s.id v) ≡ []
    unfolding remove_first
    only b =
        assign_self s.peer_map (s.id v) (remove_first v (s.peer_map (s.id v)))
        ∙ ap (remove_first v) (single b)
        ∙ same v
      where
        same : (v : ℕ) → (if v == v then [] else v ∷ []) ≡ []
        same v = ground arith

    abbrev condition : Bool
    condition =
        is_some (s.peer_in_phys (s.id v)) && not ((s.entry v).ppage == 0) && is_swap_backed (s.id v)

    release_page-if :
        (b : Bool)
        → condition ≡ b
        → release_page v s ≡ (if b then free_page v unmapped else unmapped)
    unfolding release_page check_residence
    release_page-if b e = ap (λ c. if c then free_page v unmapped else unmapped) e

    kept-Released :
        (o : Option ℕ) → s.peer_in_phys (s.id v) ≡ o → condition ≡ false → Released v s unmapped
    kept-Released o e c = record {
      sound = unmapped-Sound;
      same_id = refl;
      peers = refl;
      elsewhere = λ i ne. refl;
      gone = gone o e c;
    }
      where
        parts : (p : ℕ) (b : Bool) → (not (p == 0) && b) ≡ false → b ≡ true → p ≡ 0
        parts p b e k = ground (arith, e, k)

        gone :
            (o : Option ℕ)
            → s.peer_in_phys (s.id v) ≡ o
            → condition ≡ false
            → is_swap_backed (s.id v) ≡ true
            → (s.peer_in_phys (s.id v) ≡ none) ⊎ (s.peer_in_phys (s.id v) ≡ some 0)
        gone none e c b = inl e
        gone (some q) e c b =
            let k =
              sym (ap (λ o. is_some o && not ((s.entry v).ppage == 0) && is_swap_backed (s.id v)) e)
              ∙ c in
            let z = parts ((s.entry v).ppage) (is_swap_backed (s.id v)) k b in
            inr (e ∙ ap some (sym (h.linked (s.id v) v q (λ x. x) mapped e) ∙ z))

    freed-Released :
        (o : Option ℕ)
        → s.peer_in_phys (s.id v) ≡ o
        → condition ≡ true
        → Released v s (free_page v unmapped)
    unfolding free_page
    freed-Released none e c =
        let k =
          sym (ap (λ o. is_some o && not ((s.entry v).ppage == 0) && is_swap_backed (s.id v)) e)
          ∙ c in
        cc
    freed-Released (some q) e c =
        let k =
          sym (ap (λ o. is_some o && not ((s.entry v).ppage == 0) && is_swap_backed (s.id v)) e)
          ∙ c in
        let b = parts ((s.entry v).ppage) (is_swap_backed (s.id v)) k in
        let at_q = h.linked (s.id v) v q (λ x. x) mapped e in
        record {
          sound =
              free_page-Sound v q unmapped unmapped-Sound (only b.1) e at_q (λ z. b.0 (at_q ∙ z));
          same_id = refl;
          peers = refl;
          elsewhere = λ i ne. assign_ne s.peer_in_phys (s.id v) i none ne;
          gone = λ _. inl (assign_self s.peer_in_phys (s.id v) none);
        }
      where
        parts : (p : ℕ) (b : Bool) → (not (p == 0) && b) ≡ true → (p ≢ 0) × (b ≡ true)
        parts p b e = (ground (arith, e), ground (arith, e))

    pub release_page-Released : Released v s (release_page v s)
    release_page-Released = elim (Bool-cases condition) [
      | inl c ↦
          subst (Released v s) (sym (release_page-if true c))
            (freed-Released (s.peer_in_phys (s.id v)) refl c)
      | inr c ↦
          subst (Released v s) (sym (release_page-if false c))
            (kept-Released (s.peer_in_phys (s.id v)) refl c)
    ]
