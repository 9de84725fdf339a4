-- ===== src/Pager/Sound/Evict.antt =====
-- The steps of the clock keep the invariant, and lose no data.
use eecs.Base.{
  Memᴰ, ℕ, ◌+◌, ◌≤◌, ◌<◌, ◌≡◌, ◌≢◌, refl, sym, ap, subst, ◌∙◌, ◌⊎◌, inl, inr, Bool, true, false,
  List, [], ◌∷◌, ◌++◌, Option, none, some, if◌then◌else◌, arith,
}
use eecs.Pager.Files.{FileId, is_swap_backed, assign, assign_self, assign_ne, FileId-cases}
use eecs.Pager.Memory.{
  Page, FileEvent, PhysicalPage, Entry, Memory, frame, frame_lem, put, disable_all, evict,
  second_chance,
}
use eecs.Pager.Frames.{
  count, count_self, count-other, count-cons, count-rotate, Frames-bounds, Frames-move,
  Frames-rotate,
}
use eecs.Pager.Tables.{
  put-ne, put-same, disabled, disable_all-ppage, disable_all-before, disable_all-in,
}
use eecs.Pager.Sound.{Accessible, Files, page_at, content, Kept, Sound, Nowhere}

module _ (read : List FileEvent → FileId → Option Page) (n : ℕ) where
  abbrev pub AllSound : Memory → Type 0
  AllSound = Sound read n Nowhere Nowhere

  module _ (p : ℕ) (rest : List ℕ) (s : Memory)
      (h : AllSound (record s { clock_queue = p ∷ rest })) where
    pub p_in : (1 ≤ p) × (p < n) × (count p s.available_physical_pages + count p (p ∷ rest) ≡ 1)
    p_in =
        Frames-bounds n p s.available_physical_pages (p ∷ rest) h.frames
          (omega (arith, count_self p rest))

    pub once : (q : ℕ) → 1 ≤ count q rest → q ≢ p
    once q k same = omega (arith, p_in.2, count_self p rest, subst (λ x. 1 ≤ count x rest) same k)

    later : (q : ℕ) → 1 ≤ count q rest → 1 ≤ count q (p ∷ rest)
    later q k = omega (arith, count-cons q p rest, k)

    behind : (q : ℕ) → 1 ≤ count q (rest ++ p ∷ []) → 1 ≤ count q (p ∷ rest)
    behind q k = omega (arith, count-rotate q p rest)

    -- The page of another block is another page.
    pub other_page :
        (i : FileId) (q : ℕ) → s.peer_in_phys i ≡ some q → (s.physical_table p).id ≢ i → q ≢ p
    other_page i q e ne same = elim (h.back i q e) [
      | inl z ↦ omega (arith, p_in.0)
      | inr b ↦ ne (ap (λ x. (s.physical_table x).id) (sym same) ∙ b.1)
    ]

    abbrev chance : PhysicalPage
    chance = record (s.physical_table p) { referenced = false }

    abbrev peers : List ℕ
    peers = s.peer_map ((s.physical_table p).id)

    still :
        (g : Entry → Bool) (off : (e : Entry) → g (disabled e) ≡ false) (i : FileId) (v : ℕ)
        → Memᴰ v (s.peer_map i)
        → g (disable_all peers s.entry v) ≡ true
        → (s.physical_table p).id ≢ i
    still g off i v m e same =
        disable_all-in g off peers s.entry v (subst (λ x. Memᴰ v (s.peer_map x)) (sym same) m) e

    referenced-kept :
        (q : ℕ)
        → q ≢ p
        → (s.physical_table q).referenced ≡ true
        → (put s.physical_table p chance q).referenced ≡ true
    referenced-kept q ne e = ap (λ x. x.referenced) (put-ne s.physical_table p q chance ne) ∙ e

    same_id : (q : ℕ) → (put s.physical_table p chance q).id ≡ (s.physical_table q).id
    same_id q = put-same (λ x. x.id) s.physical_table p q chance refl

    same_dirty : (q : ℕ) → (put s.physical_table p chance q).dirty ≡ (s.physical_table q).dirty
    same_dirty q = put-same (λ x. x.dirty) s.physical_table p q chance refl

    second_chance-readable :
        (i : FileId) (v : ℕ)
        → Memᴰ v (s.peer_map i)
        → (disable_all peers s.entry v).read_enable ≡ true
        → (q : ℕ) × (s.peer_in_phys i ≡ some q)
          × ((q ≡ 0) ⊎ ((put s.physical_table p chance q).referenced ≡ true))
    second_chance-readable i v m e =
        let r =
          h.readable i v (λ z. z) m
            (disable_all-before (λ x. x.read_enable) (λ x. refl) peers s.entry v e) in
        let ne = other_page i r.0 r.1 (still (λ x. x.read_enable) (λ x. refl) i v m e) in
        (r.0, r.1, elim r.2 [ inl z ↦ inl z | inr u ↦ inr (referenced-kept r.0 ne u) ])

    second_chance-writable :
        (i : FileId) (v : ℕ)
        → Memᴰ v (s.peer_map i)
        → (disable_all peers s.entry v).write_enable ≡ true
        → (q : ℕ) × (s.peer_in_phys i ≡ some q)
          × ((put s.physical_table p chance q).dirty ≡ true)
          × ((put s.physical_table p chance q).referenced ≡ true)
    second_chance-writable i v m e =
        let r =
          h.writable i v (λ z. z) m
            (disable_all-before (λ x. x.write_enable) (λ x. refl) peers s.entry v e) in
        let ne = other_page i r.0 r.1 (still (λ x. x.write_enable) (λ x. refl) i v m e) in
        (r.0, r.1, same_dirty r.0 ∙ r.2, referenced-kept r.0 ne r.3)

    pub second_chance-Sound : AllSound (second_chance p (record s { clock_queue = rest }))
    unfolding second_chance
    second_chance-Sound = record {
      small = h.small;
      frames = Frames-rotate n p s.available_physical_pages rest h.frames;
      holds = λ q k. ap s.peer_in_phys (same_id q) ∙ h.holds q (behind q k);
      back = λ i q e. elim (h.back i q e) [
        | inl z ↦ inl z
        | inr b ↦ inr (omega (arith, count-rotate q p rest, b.0), same_id q ∙ b.1)
      ];
      member = h.member;
      linked = λ i v q o m e. disable_all-ppage peers s.entry v ∙ h.linked i v q o m e;
      readable = λ i v o m e. second_chance-readable i v m e;
      writable = λ i v o m e. second_chance-writable i v m e;
      clean = λ q o k e.
          ap (read s.log) (same_id q) ∙ h.clean q o (behind q k) (sym (same_dirty q) ∙ e);
      accessible =
          λ q k. subst (Accessible read s.log) (sym (same_id q)) (h.accessible q (behind q k));
      stored = h.stored;
      zero_page = h.zero_page;
      zero_swap = h.zero_swap;
      zero_clean = same_dirty 0 ∙ h.zero_clean;
    }

    module _ (laws : Files read) (unused : (s.physical_table p).referenced ≡ false) where
      abbrev id_p : FileId
      id_p = (s.physical_table p).id

      abbrev evicted : PhysicalPage
      evicted = record (s.physical_table p) { dirty = false }

      abbrev log_after : Bool → List FileEvent
      log_after b = if b then FileEvent.file_write id_p (s.physmem (frame p)) ∷ s.log else s.log

      p_front : 1 ≤ count p (p ∷ rest)
      p_front = omega (arith, count_self p rest)

      log-other :
          (b : Bool) (i : FileId) (pg : Page)
          → i ≢ id_p
          → read s.log i ≡ some pg
          → read (log_after b) i ≡ some pg
      log-other true i pg ne e = laws.kept_write s.log i id_p pg (s.physmem (frame p)) ne e
      log-other false i pg ne e = e

      log-own :
          (b : Bool) → (s.physical_table p).dirty ≡ b → read (log_after b) id_p ≡ some (s.physmem p)
      log-own true e =
          laws.written s.log id_p (s.physmem (frame p)) (h.accessible p p_front)
          ∙ ap (λ q. some (s.physmem q)) (frame_lem p (omega (arith, p_in.1, h.small)))
      log-own false e = h.clean p (λ z. z) p_front e

      abbrev log' : List FileEvent
      log' = log_after ((s.physical_table p).dirty)

      evicted-id : (q : ℕ) → (put s.physical_table p evicted q).id ≡ (s.physical_table q).id
      evicted-id q = put-same (λ x. x.id) s.physical_table p q evicted refl

      other_block : (q : ℕ) → 1 ≤ count q rest → (s.physical_table q).id ≢ id_p
      other_block q k same =
          let a = h.holds q (later q k) in
          let b = h.holds p p_front in
          let e : Path (Option ℕ) (some q) (some p) = sym a ∙ ap s.peer_in_phys same ∙ b in
          let e' : q ≡ p = cc in once q k e'

      -- A block that is still in memory.
      evict-there :
          (i : FileId) (q : ℕ)
          → assign s.peer_in_phys id_p none i ≡ some q
          → (id_p ≢ i) × (s.peer_in_phys i ≡ some q)
      evict-there i q e = elim (FileId-cases id_p i) [
        | inl same ↦
            let k : Path (Option ℕ) none (some q) =
              sym (
                subst (λ x. assign s.peer_in_phys id_p none x ≡ none) same
                  (assign_self s.peer_in_phys id_p none))
              ∙ e in
            cc
        | inr ne ↦ (ne, sym (assign_ne s.peer_in_phys id_p i none ne) ∙ e)
      ]

      evict-Accessible : (i : FileId) → i ≢ id_p → Accessible read s.log i → Accessible read log' i
      evict-Accessible i ne (inl e) = inl e
      evict-Accessible i ne (inr (pg, e)) = inr (pg, log-other _ i pg ne e)

      -- A block that entries lead to is not that of the page.
      evict-linked :
          (i : FileId) (q : ℕ)
          → s.peer_in_phys i ≡ some q
          → (q ≡ 0) ⊎ ((s.physical_table q).referenced ≡ true)
          → id_p ≢ i
      evict-linked i q e r same =
          let a : s.peer_in_phys i ≡ some p = ap s.peer_in_phys (sym same) ∙ h.holds p p_front in
          let k : q ≡ p = cc in
          elim r [
            | inl z ↦ omega (arith, p_in.0)
            | inr u ↦
                let u' : (s.physical_table p).referenced ≡ true =
                  subst (λ x. (s.physical_table x).referenced ≡ true) k u in
                cc
          ]

      evicted-same : (q : ℕ) → q ≢ p → put s.physical_table p evicted q ≡ s.physical_table q
      evicted-same q ne = put-ne s.physical_table p q evicted ne

      still_there :
          (i : FileId) (q : ℕ)
          → s.peer_in_phys i ≡ some q
          → id_p ≢ i
          → assign s.peer_in_phys id_p none i ≡ some q
      still_there i q e ne = assign_ne s.peer_in_phys id_p i none ne ∙ e

      evict-back :
          (i : FileId) (q : ℕ)
          → assign s.peer_in_phys id_p none i ≡ some q
          → (q ≡ 0) ⊎ ((1 ≤ count q rest) × ((put s.physical_table p evicted q).id ≡ i))
      evict-back i q e =
          let there = evict-there i q e in
          elim (h.back i q there.1) [
            | inl z ↦ inl z
            | inr b ↦
                let ne = other_page i q there.1 there.0 in
                inr (omega (arith, count-other q p rest ne, b.0), evicted-id q ∙ b.1)
          ]

      evict-readable :
          (i : FileId)
          → ((q : ℕ) × (s.peer_in_phys i ≡ some q)
              × ((q ≡ 0) ⊎ ((s.physical_table q).referenced ≡ true)))
          → (q : ℕ) × (assign s.peer_in_phys id_p none i ≡ some q)
            × ((q ≡ 0) ⊎ ((put s.physical_table p evicted q).referenced ≡ true))
      evict-readable i (q, e, r) =
          let ne = evict-linked i q e r in
          (
            q,
            still_there i q e ne,
            elim r [
              | inl z ↦ inl z
              | inr u ↦ inr (ap (λ x. x.referenced) (evicted-same q (other_page i q e ne)) ∙ u)
            ],
          )

      evict-writable :
          (i : FileId)
          → ((q : ℕ) × (s.peer_in_phys i ≡ some q)
              × ((s.physical_table q).dirty ≡ true)
              × ((s.physical_table q).referenced ≡ true))
          → (q : ℕ) × (assign s.peer_in_phys id_p none i ≡ some q)
            × ((put s.physical_table p evicted q).dirty ≡ true)
            × ((put s.physical_table p evicted q).referenced ≡ true)
      evict-writable i (q, e, d, u) =
          let ne = evict-linked i q e (inr u) in
          let same = evicted-same q (other_page i q e ne) in
          (q, still_there i q e ne, ap (λ x. x.dirty) same ∙ d, ap (λ x. x.referenced) same ∙ u)

      evict-gone :
          (i : FileId) (v : ℕ)
          → Memᴰ v (s.peer_map i)
          → is_swap_backed i ≡ true
          → assign s.peer_in_phys id_p none i ≡ none
          → (pg : Page) × (read log' i ≡ some pg)
      evict-gone i v m w e = elim (FileId-cases id_p i) [
        | inl same ↦
            (s.physmem p, ap (read log') (sym same) ∙ log-own ((s.physical_table p).dirty) refl)
        | inr ne ↦
            let r = h.stored i v m w (sym (assign_ne s.peer_in_phys id_p i none ne) ∙ e) in
            (r.0, log-other ((s.physical_table p).dirty) i r.0 (λ x. ne (sym x)) r.1)
      ]

      pub evict-Sound : AllSound (evict p (record s { clock_queue = rest }))
      unfolding evict
      evict-Sound = record {
        small = h.small;
        frames = Frames-move n p s.available_physical_pages rest h.frames;
        holds = λ q k.
            ap (assign s.peer_in_phys id_p none) (evicted-id q)
            ∙ assign_ne s.peer_in_phys id_p ((s.physical_table q).id) none
                (λ e. other_block q k (sym e))
            ∙ h.holds q (later q k);
        back = evict-back;
        member = h.member;
        linked = λ i v q o m e. h.linked i v q o m ((evict-there i q e).1);
        readable = λ i v o m e. evict-readable i (h.readable i v o m e);
        writable = λ i v o m e. evict-writable i (h.writable i v o m e);
        clean = λ q o k e.
            ap (read log') (evicted-id q)
            ∙ log-other ((s.physical_table p).dirty) ((s.physical_table q).id) (s.physmem q)
                (other_block q k)
                (h.clean q o (later q k)
                  (sym (ap (λ x. x.dirty) (put-ne s.physical_table p q evicted (once q k))) ∙ e));
        accessible = λ q k. subst (Accessible read log') (sym (evicted-id q)) (
            evict-Accessible ((s.physical_table q).id) (other_block q k)
              (h.accessible q (later q k)));
        stored = evict-gone;
        zero_page = h.zero_page;
        zero_swap = λ i e. h.zero_swap i (evict-there i 0 e).1;
        zero_clean =
            ap (λ x. x.dirty) (put-ne s.physical_table p 0 evicted (λ e. omega (arith, p_in.0, e)))
            ∙ h.zero_clean;
      }

      pub evict-Kept : Kept read s (evict p (record s { clock_queue = rest }))
      unfolding evict
      evict-Kept i pg e = elim (FileId-cases id_p i) [
        | inl same ↦ subst kept same own e
        | inr ne ↦
            ap (page_at read after i) (assign_ne s.peer_in_phys id_p i none ne)
            ∙ other i pg ne (s.peer_in_phys i) e
      ]
        where
          after : Memory
          after = evict p (record s { clock_queue = rest })

          kept : FileId → Type 0
          kept i = content read s i ≡ some pg → content read after i ≡ some pg

          own : kept id_p
          own e =
              ap (page_at read after id_p) (assign_self s.peer_in_phys id_p none)
              ∙ log-own ((s.physical_table p).dirty) refl
              ∙ sym (ap (page_at read s id_p) (h.holds p p_front))
              ∙ e

          other :
              (i : FileId) (pg : Page)
              → id_p ≢ i
              → (o : Option ℕ) → page_at read s i o ≡ some pg
              → page_at read after i o ≡ some pg
          other i pg ne none e = log-other ((s.physical_table p).dirty) i pg (λ x. ne (sym x)) e
          other i pg ne (some q) e = e
