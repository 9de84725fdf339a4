-- ===== src/Pager/Sound/Install.antt =====
-- A free physical page becomes that of a virtual page.
use eecs.Base.{
  Memᴰ, ℕ, ◌+◌, ◌^◌, ◌≤◌, ◌<◌, ◌≡◌, ◌≢◌, refl, sym, ap, subst, ◌∙◌, ◌⊎◌, inl, inr, true, false,
  List, [], ◌∷◌, ◌++◌, Option, none, some, arith,
}
use eecs.Pager.Files.{FileId, is_swap_backed, assign, assign_self, assign_ne, FileId-cases}
use eecs.Pager.Memory.{Page, FileEvent, PhysicalPage, Entry, Memory, put}
use eecs.Pager.Faults.{install, narrow}
use eecs.Pager.Frames.{
  count, count_self, count-rotate, count-other, Frames, Frames-bounds, Frames-take,
}
use eecs.Pager.Tables.{put_self, put-ne, put-same, ℕ-cases}
use eecs.Pager.Sound.{Accessible, page_at, content, Kept, Sound}
use eecs.Pager.Sound.Evict.{AllSound}

pub narrow_lem : (p : ℕ) → p < 2 ^ 20 → narrow p ≡ p
unfolding narrow
narrow_lem p k = omega arith

-- The block of virtual page `v` is at `p` in memory, but the entries of its peers and the dirty bit of `p` are
-- still to be set.
pub record Pending (read : List FileEvent → FileId → Option Page) (n v p : ℕ) (s : Memory)
    : Type 0 where
  pub sound : Sound read n (λ i. i ≡ s.id v) (λ q. q ≡ p) s
  pub resident : s.peer_in_phys (s.id v) ≡ some p
  pub entry_there : (s.entry v).ppage ≡ p
  pub mapped : Memᴰ v (s.peer_map (s.id v))

module _ (read : List FileEvent → FileId → Option Page) (n v p : ℕ) (free : List ℕ) (s : Memory)
    (page : Page) (log : List FileEvent) (h : AllSound read n s)
    (mapped : Memᴰ v (s.peer_map (s.id v))) (first : s.available_physical_pages ≡ p ∷ free)
    (not_held : (s.peer_in_phys (s.id v) ≡ none) ⊎ (s.peer_in_phys (s.id v) ≡ some 0))
    (keeps : (i : FileId) (pg : Page) → read s.log i ≡ some pg → read log i ≡ some pg)
    (reachable : Accessible read log (s.id v)) where
  abbrev pub loaded : Memory
  loaded = record s { physmem = put s.physmem p page; log = log }

  Frames-first : Frames n (p ∷ free) s.clock_queue
  Frames-first = subst (λ xs. Frames n xs s.clock_queue) first h.frames

  p_in : (1 ≤ p) × (p < n) × (count p (p ∷ free) + count p s.clock_queue ≡ 1)
  p_in = Frames-bounds n p (p ∷ free) s.clock_queue Frames-first (omega (arith, count_self p free))

  other_frame : (q : ℕ) → 1 ≤ count q s.clock_queue → q ≢ p
  other_frame q k same =
      omega (arith, p_in.2, count_self p free, subst (λ x. 1 ≤ count x s.clock_queue) same k)

  other_id : (q : ℕ) → 1 ≤ count q s.clock_queue → s.id v ≢ (s.physical_table q).id
  other_id q k same =
      let e : s.peer_in_phys (s.id v) ≡ some q = ap s.peer_in_phys same ∙ h.holds q k in
      elim not_held [
        | inl z ↦ cc
        | inr z ↦ let e' : 0 ≡ q = cc in omega (arith, e', (h.frames q).1 (omega (arith, k)))
      ]

  earlier : (q : ℕ) → q ≢ p → 1 ≤ count q (s.clock_queue ++ p ∷ []) → 1 ≤ count q s.clock_queue
  earlier q ne k = omega (arith, count-rotate q p s.clock_queue, count-other q p s.clock_queue ne)

  later : (q : ℕ) → 1 ≤ count q s.clock_queue → 1 ≤ count q (s.clock_queue ++ p ∷ [])
  later q k =
      omega (arith, count-rotate q p s.clock_queue, count-other q p s.clock_queue (other_frame q k))

  p_later : 1 ≤ count p (s.clock_queue ++ p ∷ [])
  p_later = omega (arith, count-rotate p p s.clock_queue, count_self p s.clock_queue)

  abbrev framed : PhysicalPage
  framed = record (s.physical_table p) { id = s.id v }

  abbrev table' : ℕ → PhysicalPage
  table' = put s.physical_table p framed

  abbrev entry' : ℕ → Entry
  entry' = put s.entry v (record (s.entry v) { ppage = narrow p })

  abbrev in_phys' : FileId → Option ℕ
  in_phys' = assign s.peer_in_phys (s.id v) (some p)

  table-own : table' p ≡ framed
  table-own = put_self s.physical_table p framed

  table-other : (q : ℕ) → q ≢ p → table' q ≡ s.physical_table q
  table-other q ne = put-ne s.physical_table p q framed ne

  same_referenced : (q : ℕ) → (table' q).referenced ≡ (s.physical_table q).referenced
  same_referenced q = put-same (λ x. x.referenced) s.physical_table p q framed refl

  same_dirty : (q : ℕ) → (table' q).dirty ≡ (s.physical_table q).dirty
  same_dirty q = put-same (λ x. x.dirty) s.physical_table p q framed refl

  install-holds :
      (q : ℕ) → 1 ≤ count q (s.clock_queue ++ p ∷ []) → in_phys' ((table' q).id) ≡ some q
  install-holds q k = elim (ℕ-cases q p) [
    | inl same ↦
        subst (λ x. in_phys' ((table' x).id) ≡ some x) (sym same)
          (ap (λ x. in_phys' (x.id)) table-own ∙ assign_self s.peer_in_phys (s.id v) (some p))
    | inr ne ↦
        let c = earlier q ne k in
        ap (λ x. in_phys' (x.id)) (table-other q ne)
        ∙ assign_ne s.peer_in_phys (s.id v) ((s.physical_table q).id) (some p) (other_id q c)
        ∙ h.holds q c
  ]

  install-there : (i : FileId) → s.id v ≢ i → in_phys' i ≡ s.peer_in_phys i
  install-there i ne = assign_ne s.peer_in_phys (s.id v) i (some p) ne

  install-back :
      (i : FileId) (q : ℕ)
      → in_phys' i ≡ some q
      → (q ≡ 0) ⊎ ((1 ≤ count q (s.clock_queue ++ p ∷ [])) × ((table' q).id ≡ i))
  install-back i q e = elim (FileId-cases (s.id v) i) [
    | inl same ↦
        let k : Path (Option ℕ) (some p) (some q) =
          sym (assign_self s.peer_in_phys (s.id v) (some p)) ∙ ap in_phys' same ∙ e in
        let k' : p ≡ q = cc in
        inr (
          subst (λ x. 1 ≤ count x (s.clock_queue ++ p ∷ [])) k' p_later,
          ap (λ x. (table' x).id) (sym k') ∙ ap (λ x. x.id) table-own ∙ same,
        )
    | inr ne ↦ elim (h.back i q (sym (install-there i ne) ∙ e)) [
      | inl z ↦ inl z
      | inr b ↦ inr (later q b.0, ap (λ x. x.id) (table-other q (other_frame q b.0)) ∙ b.1)
    ]
  ]

  -- The entry of a virtual page of another block.
  install-entry :
      (i : FileId) (w : ℕ) → ¬ (i ≡ s.id v) → Memᴰ w (s.peer_map i) → entry' w ≡ s.entry w
  install-entry i w o m = put-ne s.entry v w _ (λ same. o (sym (h.member i w m) ∙ ap s.id same))

  physmem-other : (q : ℕ) → q ≢ p → put s.physmem p page q ≡ s.physmem q
  physmem-other q ne = put-ne s.physmem p q page ne

  install-readable :
      (i : FileId)
      → s.id v ≢ i
      → ((q : ℕ) × (s.peer_in_phys i ≡ some q)
          × ((q ≡ 0) ⊎ ((s.physical_table q).referenced ≡ true)))
      → (q : ℕ) × (in_phys' i ≡ some q) × ((q ≡ 0) ⊎ ((table' q).referenced ≡ true))
  install-readable i ne (q, e, r) =
      (q, install-there i ne ∙ e, elim r [ inl z ↦ inl z | inr u ↦ inr (same_referenced q ∙ u) ])

  install-writable :
      (i : FileId)
      → s.id v ≢ i
      → ((q : ℕ) × (s.peer_in_phys i ≡ some q)
          × ((s.physical_table q).dirty ≡ true)
          × ((s.physical_table q).referenced ≡ true))
      → (q : ℕ) × (in_phys' i ≡ some q) × ((table' q).dirty ≡ true) × ((table' q).referenced ≡ true)
  install-writable i ne (q, e, d, u) =
      (q, install-there i ne ∙ e, same_dirty q ∙ d, same_referenced q ∙ u)

  install-clean :
      (q : ℕ)
      → ¬ (q ≡ p)
      → 1 ≤ count q (s.clock_queue ++ p ∷ [])
      → (table' q).dirty ≡ false
      → read log ((table' q).id) ≡ some (put s.physmem p page q)
  install-clean q ne k e =
      ap (λ x. read log (x.id)) (table-other q ne)
      ∙ keeps ((s.physical_table q).id) (s.physmem q)
          (h.clean q (λ z. z) (earlier q ne k) (sym (same_dirty q) ∙ e))
      ∙ ap some (sym (physmem-other q ne))

  kept-Accessible : (i : FileId) → Accessible read s.log i → Accessible read log i
  kept-Accessible i (inl b) = inl b
  kept-Accessible i (inr (pg, e)) = inr (pg, keeps i pg e)

  install-Accessible :
      (q : ℕ) → 1 ≤ count q (s.clock_queue ++ p ∷ []) → Accessible read log ((table' q).id)
  install-Accessible q k = elim (ℕ-cases q p) [
    | inl same ↦
        subst (Accessible read log) (sym (ap (λ x. (table' x).id) same ∙ ap (λ x. x.id) table-own))
          reachable
    | inr ne ↦
        subst (Accessible read log) (sym (ap (λ x. x.id) (table-other q ne)))
          (kept-Accessible ((s.physical_table q).id) (h.accessible q (earlier q ne k)))
  ]

  install-stored :
      (i : FileId) (w : ℕ)
      → Memᴰ w (s.peer_map i)
      → is_swap_backed i ≡ true
      → in_phys' i ≡ none
      → (pg : Page) × (read log i ≡ some pg)
  install-stored i w m b e = elim (FileId-cases (s.id v) i) [
    | inl same ↦
        let k : Path (Option ℕ) (some p) none =
          sym (assign_self s.peer_in_phys (s.id v) (some p)) ∙ ap in_phys' same ∙ e in
        cc
    | inr ne ↦ let r = h.stored i w m b (sym (install-there i ne) ∙ e) in (r.0, keeps i r.0 r.1)
  ]

  p_not_zero : 0 ≢ p
  p_not_zero e = omega (arith, p_in.0, e)

  install-zero : (i : FileId) → in_phys' i ≡ some 0 → is_swap_backed i ≡ true
  install-zero i e = elim (FileId-cases (s.id v) i) [
    | inl same ↦
        let k : Path (Option ℕ) (some p) (some 0) =
          sym (assign_self s.peer_in_phys (s.id v) (some p)) ∙ ap in_phys' same ∙ e in
        let k' : p ≡ 0 = cc in absurd (p_not_zero (sym k'))
    | inr ne ↦ h.zero_swap i (sym (install-there i ne) ∙ e)
  ]

  pub install-Pending : Pending read n v p (install p free v loaded)
  unfolding install
  install-Pending = record {
    sound = record {
      small = h.small;
      frames = Frames-take n p free s.clock_queue Frames-first;
      holds = install-holds;
      back = install-back;
      member = h.member;
      linked = λ i w q o m e.
          ap (λ x. x.ppage) (install-entry i w o m)
          ∙ h.linked i w q (λ z. z) m (sym (install-there i (λ x. o (sym x))) ∙ e);
      readable = λ i w o m e.
          install-readable i (λ x. o (sym x))
            (h.readable i w (λ z. z) m (sym (ap (λ x. x.read_enable) (install-entry i w o m)) ∙ e));
      writable = λ i w o m e.
          install-writable i (λ x. o (sym x))
            (h.writable i w (λ z. z) m
              (sym (ap (λ x. x.write_enable) (install-entry i w o m)) ∙ e));
      clean = install-clean;
      accessible = install-Accessible;
      stored = install-stored;
      zero_page = λ j. ap (λ f. f j) (physmem-other 0 p_not_zero) ∙ h.zero_page j;
      zero_swap = install-zero;
      zero_clean = same_dirty 0 ∙ h.zero_clean;
    };
    resident = assign_self s.peer_in_phys (s.id v) (some p);
    entry_there =
        ap (λ x. x.ppage) (put_self s.entry v _) ∙ narrow_lem p (omega (arith, p_in.1, h.small));
    mapped = mapped;
  }

  -- The block's data, and that of the others.
  pub install-Kept :
      ((pg : Page) → content read s (s.id v) ≡ some pg → page ≡ pg)
      → Kept read s (install p free v loaded)
  unfolding install
  install-Kept right i pg e = elim (FileId-cases (s.id v) i) [
    | inl same ↦ subst kept same own e
    | inr ne ↦ ap (page_at read after i) (install-there i ne) ∙ other i pg (s.peer_in_phys i) refl e
  ]
    where
      after : Memory
      after = install p free v loaded

      kept : FileId → Type 0
      kept i = content read s i ≡ some pg → content read after i ≡ some pg

      own : kept (s.id v)
      own e =
          ap (page_at read after (s.id v)) (assign_self s.peer_in_phys (s.id v) (some p))
          ∙ ap some (put_self s.physmem p page ∙ right pg e)

      other_page : (q : ℕ) → (q ≡ 0) ⊎ (1 ≤ count q s.clock_queue) → q ≢ p
      other_page q (inl z) e = p_not_zero (sym z ∙ e)
      other_page q (inr k) e = other_frame q k e

      there : (i : FileId) (q : ℕ) → s.peer_in_phys i ≡ some q → q ≢ p
      there i q e = elim (h.back i q e) [
        | inl z ↦ other_page q (inl z)
        | inr b ↦ other_page q (inr b.0)
      ]

      other :
          (i : FileId) (pg : Page) (o : Option ℕ)
          → s.peer_in_phys i ≡ o
          → page_at read s i o ≡ some pg
          → page_at read after i o ≡ some pg
      other i pg none d e = keeps i pg e
      other i pg (some q) d e = ap some (physmem-other q (there i q d)) ∙ e
