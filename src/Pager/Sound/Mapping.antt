-- ===== src/Pager/Sound/Mapping.antt =====
-- New virtual pages: what vm_init and vm_map do to the memory.
use eecs.Base.{
  Memᴰ, ℕ, ◌^◌, ◌≤◌, ◌<◌, ◌≡◌, ◌≢◌, refl, sym, ap, subst, ◌∙◌, ◌⊎◌, inl, inr, Bool, true, false,
  ◌&&◌, List, [], ◌∷◌, ◌++◌, Option, none, some, arith,
}
use mathlib.Core.List.Memᴰ
use eecs.Pager.Files.{
  FileId, swap_backed, file_backed, is_swap_backed, assign, assign_self, assign_ne, FileId-cases,
}
use eecs.Pager.Memory.{Page, FileEvent, Entry, Memory, put}
use eecs.Pager.Processes.{file_entry}
use eecs.Pager.Frames.{count}
use eecs.Pager.Tables.{put_self, put-ne}
use eecs.Pager.Sound.Evict.{AllSound}
use eecs.Pager.Sound.Install.{narrow_lem}

abbrev pub with_page : ℕ → FileId → Entry → Memory → Memory
with_page v i e s = record s {
  id = put s.id v i;
  entry = put s.entry v e;
  peer_map = assign s.peer_map i (s.peer_map i ++ v ∷ []);
}

-- A page of the new `peer_map` is the new page or was one.
pub new_peer-cases :
    (peers : FileId → List ℕ) (i : FileId) (v : ℕ) (j : FileId) (w : ℕ)
    → Memᴰ w (assign peers i (peers i ++ v ∷ []) j)
    → ((w ≡ v) × (i ≡ j)) ⊎ Memᴰ w (peers j)
new_peer-cases peers i v j w m = elim (FileId-cases i j) [
  | inl same ↦ subst split same own m
  | inr ne ↦ inr (subst (Memᴰ w) (assign_ne peers i j (peers i ++ v ∷ []) ne) m)
]
  where
    split : FileId → Type 0
    split j = Memᴰ w (assign peers i (peers i ++ v ∷ []) j) → ((w ≡ v) × (i ≡ j)) ⊎ Memᴰ w (peers j)

    own : split i
    own m =
        elim (Memᴰ.append_cases (peers i)
          (subst (Memᴰ w) (assign_self peers i (peers i ++ v ∷ [])) m)) [
            | inl old ↦ inr old
            | inr new ↦ inl (Memᴰ.eq_of_singleton new, refl)
          ]

module _ (read : List FileEvent → FileId → Option Page) (n : ℕ) where
  -- The block is not of a virtual page, and not in a physical page.
  module _ (i : FileId) (s : Memory) (h : AllSound read n s) (swap : is_swap_backed i ≡ true)
      (unmapped : s.peer_map i ≡ [])
      (not_held : (s.peer_in_phys i ≡ none) ⊎ (s.peer_in_phys i ≡ some 0)) where
    abbrev zeroed : Memory
    zeroed = record s { peer_in_phys = assign s.peer_in_phys i (some 0) }

    none_mapped : (j : FileId) (w : ℕ) → Memᴰ w (s.peer_map j) → i ≢ j
    none_mapped j w m e = Memᴰ.not-nil (subst (Memᴰ w) (ap s.peer_map (sym e) ∙ unmapped) m)

    there : (j : FileId) → i ≢ j → zeroed.peer_in_phys j ≡ s.peer_in_phys j
    there j ne = assign_ne s.peer_in_phys i j (some 0) ne

    zeroed-holds :
        (p : ℕ) → 1 ≤ count p s.clock_queue → zeroed.peer_in_phys ((s.physical_table p).id) ≡ some p
    zeroed-holds p k = there ((s.physical_table p).id) ne ∙ h.holds p k
      where
        ne : i ≢ (s.physical_table p).id
        ne e =
            let a : s.peer_in_phys i ≡ some p = ap s.peer_in_phys e ∙ h.holds p k in
            elim not_held [
              | inl z ↦ cc
              | inr z ↦ let q : 0 ≡ p = cc in omega (arith, q, (h.frames p).1 (omega (arith, k)))
            ]

    zeroed-back :
        (j : FileId) (p : ℕ)
        → zeroed.peer_in_phys j ≡ some p
        → (p ≡ 0) ⊎ ((1 ≤ count p s.clock_queue) × ((s.physical_table p).id ≡ j))
    zeroed-back j p e = elim (FileId-cases i j) [
      | inl same ↦
          let k : Path (Option ℕ) (some 0) (some p) =
            sym (assign_self s.peer_in_phys i (some 0)) ∙ ap zeroed.peer_in_phys same ∙ e in
          inl cc
      | inr ne ↦ h.back j p (sym (there j ne) ∙ e)
    ]

    zeroed-swap : (j : FileId) → zeroed.peer_in_phys j ≡ some 0 → is_swap_backed j ≡ true
    zeroed-swap j e = elim (FileId-cases i j) [
      | inl same ↦ subst (λ x. is_swap_backed x ≡ true) same swap
      | inr ne ↦ h.zero_swap j (sym (there j ne) ∙ e)
    ]

    pub zeroed-Sound :
        AllSound read n (record s { peer_in_phys = assign s.peer_in_phys i (some 0) })
    zeroed-Sound = record {
      small = h.small;
      frames = h.frames;
      holds = zeroed-holds;
      back = zeroed-back;
      member = h.member;
      linked = λ j w p o m e. h.linked j w p o m (sym (there j (none_mapped j w m)) ∙ e);
      readable = λ j w o m e.
          let r = h.readable j w o m e in (r.0, there j (none_mapped j w m) ∙ r.1, r.2);
      writable = λ j w o m e.
          let r = h.writable j w o m e in (r.0, there j (none_mapped j w m) ∙ r.1, r.2, r.3);
      clean = h.clean;
      accessible = h.accessible;
      stored = λ j w m b e. h.stored j w m b (sym (there j (none_mapped j w m)) ∙ e);
      zero_page = h.zero_page;
      zero_swap = zeroed-swap;
      zero_clean = h.zero_clean;
    }

  -- A new virtual page, whose entry suits the physical page of its block.
  module _ (v : ℕ) (i : FileId) (e : Entry) (s : Memory) (h : AllSound read n s)
      (fresh : (j : FileId) (w : ℕ) → Memᴰ w (s.peer_map j) → w ≢ v)
      (linked : (p : ℕ) → s.peer_in_phys i ≡ some p → e.ppage ≡ p)
      (readable : e.read_enable ≡ true
        → (p : ℕ) × (s.peer_in_phys i ≡ some p)
          × ((p ≡ 0) ⊎ ((s.physical_table p).referenced ≡ true)))
      (writable : e.write_enable ≡ true
        → (p : ℕ) × (s.peer_in_phys i ≡ some p)
          × ((s.physical_table p).dirty ≡ true)
          × ((s.physical_table p).referenced ≡ true))
      (stored : is_swap_backed i ≡ true
        → s.peer_in_phys i ≡ none
        → (pg : Page) × (read s.log i ≡ some pg)) where
    with_page-cases :
        (j : FileId) (w : ℕ)
        → Memᴰ w ((with_page v i e s).peer_map j)
        → ((w ≡ v) × (i ≡ j)) ⊎ Memᴰ w (s.peer_map j)
    with_page-cases j w m = new_peer-cases s.peer_map i v j w m

    entry-old : (j : FileId) (w : ℕ) → Memᴰ w (s.peer_map j) → put s.entry v e w ≡ s.entry w
    entry-old j w m = put-ne s.entry v w e (fresh j w m)

    entry-new : (w : ℕ) → w ≡ v → put s.entry v e w ≡ e
    entry-new w k = ap (put s.entry v e) k ∙ put_self s.entry v e

    pub with_page-Sound : AllSound read n (with_page v i e s)
    with_page-Sound = record {
      small = h.small;
      frames = h.frames;
      holds = h.holds;
      back = h.back;
      member = λ j w m. elim (with_page-cases j w m) [
        | inl new ↦ ap (put s.id v i) new.0 ∙ put_self s.id v i ∙ new.1
        | inr old ↦ put-ne s.id v w i (fresh j w old) ∙ h.member j w old
      ];
      linked = λ j w p o m k. elim (with_page-cases j w m) [
        | inl new ↦ ap (λ x. x.ppage) (entry-new w new.0) ∙ linked p (ap s.peer_in_phys new.1 ∙ k)
        | inr old ↦ ap (λ x. x.ppage) (entry-old j w old) ∙ h.linked j w p o old k
      ];
      readable = λ j w o m k. elim (with_page-cases j w m) [
        | inl new ↦
            let r = readable (sym (ap (λ x. x.read_enable) (entry-new w new.0)) ∙ k) in
            (r.0, ap s.peer_in_phys (sym new.1) ∙ r.1, r.2)
        | inr old ↦ h.readable j w o old (sym (ap (λ x. x.read_enable) (entry-old j w old)) ∙ k)
      ];
      writable = λ j w o m k. elim (with_page-cases j w m) [
        | inl new ↦
            let r = writable (sym (ap (λ x. x.write_enable) (entry-new w new.0)) ∙ k) in
            (r.0, ap s.peer_in_phys (sym new.1) ∙ r.1, r.2, r.3)
        | inr old ↦ h.writable j w o old (sym (ap (λ x. x.write_enable) (entry-old j w old)) ∙ k)
      ];
      clean = h.clean;
      accessible = h.accessible;
      stored = λ j w m b k. elim (with_page-cases j w m) [
        | inl new ↦
            subst (λ x. (pg : Page) × (read s.log x ≡ some pg)) new.1
              (stored (ap is_swap_backed new.1 ∙ b) (ap s.peer_in_phys new.1 ∙ k))
        | inr old ↦ h.stored j w old b k
      ];
      zero_page = h.zero_page;
      zero_swap = h.zero_swap;
      zero_clean = h.zero_clean;
    }

    -- It is a peer of its block.
    pub with_page-mapped : Memᴰ v ((with_page v i e s).peer_map i)
    with_page-mapped =
        subst (Memᴰ v) (sym (assign_self s.peer_map i (s.peer_map i ++ v ∷ [])))
          (Memᴰ.append_right (s.peer_map i) (Memᴰ.head refl))

  -- The entry of a file-backed page that vm_map makes suits the physical page of its block.
  module _ (v : ℕ) (filename : List ℕ) (block : ℕ) (s : Memory) (h : AllSound read n s)
      (fresh : (j : FileId) (w : ℕ) → Memᴰ w (s.peer_map j) → w ≢ v) where
    abbrev file : FileId
    file = file_backed filename block

    abbrev entry_at : Option ℕ → Entry
    entry_at o = file_entry o s.physical_table n

    in_bounds : (p : ℕ) → s.peer_in_phys file ≡ some p → p < 2 ^ 20
    in_bounds p e = elim (h.back file p e) [
      | inl z ↦ omega (arith, z)
      | inr b ↦ omega (arith, (h.frames p).1 (omega (arith, b.0)), h.small)
    ]

    file-linked :
        (o : Option ℕ) (p : ℕ)
        → s.peer_in_phys file ≡ o
        → s.peer_in_phys file ≡ some p
        → (entry_at o).ppage ≡ p
    unfolding file_entry
    file-linked none p e k = let c : Path (Option ℕ) none (some p) = sym e ∙ k in cc
    file-linked (some q) p e k =
        let c : Path (Option ℕ) (some q) (some p) = sym e ∙ k in
        let c' : q ≡ p = cc in narrow_lem q (in_bounds q e) ∙ c'

    file-readable :
        (o : Option ℕ)
        → s.peer_in_phys file ≡ o
        → (entry_at o).read_enable ≡ true
        → (p : ℕ) × (s.peer_in_phys file ≡ some p)
          × ((p ≡ 0) ⊎ ((s.physical_table p).referenced ≡ true))
    unfolding file_entry
    file-readable none e k = cc
    file-readable (some q) e k = (q, e, inr k)

    both : (a b : Bool) → (a && b) ≡ true → (b ≡ true) × (a ≡ true)
    both a b e = ground arith

    file-writable :
        (o : Option ℕ)
        → s.peer_in_phys file ≡ o
        → (entry_at o).write_enable ≡ true
        → (p : ℕ) × (s.peer_in_phys file ≡ some p)
          × ((s.physical_table p).dirty ≡ true)
          × ((s.physical_table p).referenced ≡ true)
    unfolding file_entry
    file-writable none e k = cc
    file-writable (some q) e k =
        let b = both ((s.physical_table q).referenced) ((s.physical_table q).dirty) k in
        (q, e, b.0, b.1)

    pub map_file-Sound : AllSound read n (with_page v file (entry_at (s.peer_in_phys file)) s)
    map_file-Sound =
        with_page-Sound v file (entry_at (s.peer_in_phys file)) s h fresh
          (λ p. file-linked (s.peer_in_phys file) p refl) (file-readable (s.peer_in_phys file) refl)
          (file-writable (s.peer_in_phys file) refl) (λ b. cc)

  -- A swap-backed page starts at the zero page.
  module _ (v block : ℕ) (s : Memory) (h : AllSound read n s)
      (fresh : (j : FileId) (w : ℕ) → Memᴰ w (s.peer_map j) → w ≢ v)
      (unmapped : s.peer_map (swap_backed block) ≡ [])
      (not_held : (s.peer_in_phys (swap_backed block) ≡ none)
        ⊎ (s.peer_in_phys (swap_backed block) ≡ some 0)) where
    abbrev zero_entry : Entry
    zero_entry = record { ppage = 0; read_enable = true; write_enable = false }

    abbrev start : Memory
    start = record s { peer_in_phys = assign s.peer_in_phys (swap_backed block) (some 0) }

    at_zero : start.peer_in_phys (swap_backed block) ≡ some 0
    at_zero = assign_self s.peer_in_phys (swap_backed block) (some 0)

    pub map_swap-Sound : AllSound read n (with_page v (swap_backed block) zero_entry start)
    map_swap-Sound =
        with_page-Sound v (swap_backed block) zero_entry start
          (zeroed-Sound (swap_backed block) s h refl unmapped not_held) fresh
          (λ p e. let c : Path (Option ℕ) (some 0) (some p) = sym at_zero ∙ e in cc)
          (λ _. (0, at_zero, inl refl)) (λ w. cc)
          (λ b e. let c : Path (Option ℕ) (some 0) none = sym at_zero ∙ e in cc)
