-- ===== src/Pager/Pool.antt =====
-- The memory of the pager together with the swap blocks that are free (Project3/my_vm_pager.cpp).
use eecs.Base.{
  Memᴰ, ℕ, suc, ◌≤◌, ◌<◌, ◌≡◌, ◌≢◌, refl, sym, ap, subst, ◌∙◌, ◌⊎◌, inl, inr, true, false, List, [],
  ◌∷◌, ◌++◌, Option, none, some, arith, append-nil,
}
use mathlib.Core.List.Memᴰ
use eecs.Pager.Files.{
  FileId, swap_backed, file_backed, is_swap_backed, assign, assign_self, assign_ne, FileId-cases,
}
use eecs.Pager.Memory.{Page, FileEvent, Memory}
use eecs.Pager.Processes.{block_of, release_page, file_entry}
use eecs.Pager.Frames.{count, count_self, count-append, count-other, count-cons, count-none}
use eecs.Pager.Tables.{ℕ-cases}
use eecs.Pager.Sound.Evict.{AllSound}
use eecs.Pager.Sound.Search.{SteadyBut}
use eecs.Pager.Sound.Mapping.{with_page, new_peer-cases, map_swap-Sound, map_file-Sound}
use eecs.Pager.Sound.Release.{Released, peers-old, only, release_page-Released}

module _ (read : List FileEvent → FileId → Option Page) (n : ℕ) where
  pub record Pool (s : Memory) (free : List ℕ) (next_page : ℕ) : Type 0 where
    pub sound : AllSound read n s
    pub new_page : (i : FileId) (v : ℕ) → Memᴰ v (s.peer_map i) → v < next_page
    -- A swap block is of one virtual page.
    pub single :
        (i : FileId) (v : ℕ)
        → is_swap_backed i ≡ true
        → Memᴰ v (s.peer_map i)
        → s.peer_map i ≡ v ∷ []
    -- A free block is there once, and of no virtual page.
    pub unused :
        (block : ℕ)
        → 1 ≤ count block free
        → (count block free ≡ 1)
          × (s.peer_map (swap_backed block) ≡ [])
          × ((s.peer_in_phys (swap_backed block) ≡ none)
              ⊎ (s.peer_in_phys (swap_backed block) ≡ some 0))

  module _ (s : Memory) (free : List ℕ) (next_page : ℕ) (h : Pool s free next_page) where
    not_free : (v block : ℕ) → Memᴰ v (s.peer_map (swap_backed block)) → count block free ≡ 0
    not_free v block m =
        zero_or (count block free) (λ k. Memᴰ.not-nil (subst (Memᴰ v) ((h.unused block k).1) m))
      where
        zero_or : (k : ℕ) → ¬ (1 ≤ k) → k ≡ 0
        zero_or k no_more = omega (arith, no_more)

    -- A step that leaves the virtual pages as they are.
    pub Pool-steady :
        (v : ℕ) (after : Memory)
        → Memᴰ v (s.peer_map (s.id v))
        → AllSound read n after
        → SteadyBut (s.id v) s after
        → Pool after free next_page
    Pool-steady v after m sound (same_peers, same_id, missing, zeros) = record {
      sound = sound;
      new_page = λ i w k. h.new_page i w (subst (Memᴰ w) (ap (λ f. f i) same_peers) k);
      single = λ i w b k.
          ap (λ f. f i) same_peers ∙ h.single i w b (subst (Memᴰ w) (ap (λ f. f i) same_peers) k);
      unused = λ block k.
          let u = h.unused block k in
          let ne : s.id v ≢ swap_backed block =
            λ e. Memᴰ.not-nil (subst (Memᴰ v) (ap s.peer_map e ∙ u.1) m) in
          (
            u.0,
            ap (λ f. f (swap_backed block)) same_peers ∙ u.1,
            elim u.2 [
              | inl z ↦ inl (missing (swap_backed block) ne z)
              | inr z ↦ inr (zeros (swap_backed block) ne z)
            ],
          );
    }

    module _ (v : ℕ) (m : Memᴰ v (s.peer_map (s.id v))) where
      single_v : is_swap_backed (s.id v) ≡ true → s.peer_map (s.id v) ≡ v ∷ []
      single_v b = h.single (s.id v) v b m

      pub released : Released read n v s (release_page v s)
      released = release_page-Released read n v s h.sound m single_v

      abbrev after : Memory
      after = release_page v s

      after-old : (i : FileId) (w : ℕ) → Memᴰ w (after.peer_map i) → Memᴰ w (s.peer_map i)
      after-old i w k =
          peers-old read n v s h.sound m single_v i w
            (subst (Memᴰ w) (ap (λ f. f i) released.peers) k)

      after-other : (i : FileId) → s.id v ≢ i → after.peer_map i ≡ s.peer_map i
      after-other i ne = ap (λ f. f i) released.peers ∙ assign_ne s.peer_map (s.id v) i _ ne

      after-none : is_swap_backed (s.id v) ≡ true → after.peer_map (s.id v) ≡ []
      after-none b = ap (λ f. f (s.id v)) released.peers ∙ only read n v s h.sound m single_v b

      still_unused :
          (block : ℕ)
          → 1 ≤ count block free
          → (count block free ≡ 1)
            × (after.peer_map (swap_backed block) ≡ [])
            × ((after.peer_in_phys (swap_backed block) ≡ none)
                ⊎ (after.peer_in_phys (swap_backed block) ≡ some 0))
      still_unused block k =
          let u = h.unused block k in
          let ne : s.id v ≢ swap_backed block =
            λ e. Memᴰ.not-nil (subst (Memᴰ v) (ap s.peer_map e ∙ u.1) m) in
          let e = released.elsewhere (swap_backed block) ne in
          (
            u.0,
            after-other (swap_backed block) ne ∙ u.1,
            elim u.2 [ inl z ↦ inl (e ∙ z) | inr z ↦ inr (e ∙ z) ],
          )

      abbrev Unused : List ℕ → Type 0
      Unused bs =
          (block : ℕ)
          → 1 ≤ count block bs
          → (count block bs ≡ 1)
            × (after.peer_map (swap_backed block) ≡ [])
            × ((after.peer_in_phys (swap_backed block) ≡ none)
                ⊎ (after.peer_in_phys (swap_backed block) ≡ some 0))

      -- With the block of the page, if it has one.
      more-Unused : (i : FileId) → s.id v ≡ i → Unused (free ++ block_of i)
      more-Unused (file_backed filename block) e = subst Unused (sym (append-nil free)) still_unused
      more-Unused (swap_backed own) e = λ block k. elim (ℕ-cases block own) [
        | inl same ↦ subst own_or (sym same) (λ _. own_unused) k
        | inr ne ↦
            let c : count block (free ++ own ∷ []) ≡ count block free = omega (
              arith,
              count-append block free (own ∷ []),
              count-other block own [] ne,
              count-none block [] refl,
            ) in
            let u = still_unused block (omega (arith, c, k)) in (c ∙ u.0, u.1, u.2)
      ]
        where
          own_or : ℕ → Type 0
          own_or block =
              1 ≤ count block (free ++ own ∷ [])
              → (count block (free ++ own ∷ []) ≡ 1)
                × (after.peer_map (swap_backed block) ≡ [])
                × ((after.peer_in_phys (swap_backed block) ≡ none)
                    ⊎ (after.peer_in_phys (swap_backed block) ≡ some 0))

          own_unused :
              (count own (free ++ own ∷ []) ≡ 1)
              × (after.peer_map (swap_backed own) ≡ [])
              × ((after.peer_in_phys (swap_backed own) ≡ none)
                  ⊎ (after.peer_in_phys (swap_backed own) ≡ some 0))
          own_unused =
              let z = not_free v own (subst (λ x. Memᴰ v (s.peer_map x)) e m) in
              let b : is_swap_backed (s.id v) ≡ true = ap is_swap_backed e in
              (
                omega (
                  arith,
                  count-append own free (own ∷ []),
                  count_self own [],
                  count-none own [] refl,
                  z,
                ),
                ap after.peer_map (sym e) ∙ after-none b,
                subst (λ x. (after.peer_in_phys x ≡ none) ⊎ (after.peer_in_phys x ≡ some 0)) e
                    (released.gone b),
              )

      pub Pool-release : Pool after (free ++ block_of (s.id v)) next_page
      Pool-release = record {
        sound = released.sound;
        new_page = λ i w k. h.new_page i w (after-old i w k);
        single = λ i w b k. elim (FileId-cases (s.id v) i) [
          | inl same ↦ absurd (
              Memᴰ.not-nil (
                subst (Memᴰ w)
                  (ap after.peer_map (sym same) ∙ after-none (ap is_swap_backed same ∙ b)) k))
          | inr ne ↦ after-other i ne ∙ h.single i w b (subst (Memᴰ w) (after-other i ne) k)
        ];
        unused = more-Unused (s.id v) refl;
      }

    fresh : (j : FileId) (w : ℕ) → Memᴰ w (s.peer_map j) → w ≢ next_page
    fresh j w k e = omega (arith, h.new_page j w k, e)

    newer :
        (i j : FileId) (w : ℕ)
        → Memᴰ w (assign s.peer_map i (s.peer_map i ++ next_page ∷ []) j)
        → w < suc next_page
    newer i j w k = elim (new_peer-cases s.peer_map i next_page j w k) [
      | inl new ↦ omega (arith, new.0)
      | inr old ↦ omega (arith, h.new_page j w old)
    ]

    -- A new page, of a file.
    module _ (filename : List ℕ) (block : ℕ) where
      abbrev file : FileId
      file = file_backed filename block

      no_file : (i : FileId) → is_swap_backed i ≡ true → file ≢ i
      no_file i b e = let k : false ≡ true = ap is_swap_backed e ∙ b in cc

      swaps_kept :
          (i : FileId)
          → is_swap_backed i ≡ true
          → assign s.peer_map file (s.peer_map file ++ next_page ∷ []) i ≡ s.peer_map i
      swaps_kept i b = assign_ne s.peer_map file i _ (no_file i b)

      pub Pool-map_file :
          Pool
            (with_page next_page file (file_entry (s.peer_in_phys file) s.physical_table n) s)
            free
            (suc next_page)
      Pool-map_file = record {
        sound = map_file-Sound read n next_page filename block s h.sound fresh;
        new_page = newer file;
        single = λ i w b k. swaps_kept i b ∙ h.single i w b (subst (Memᴰ w) (swaps_kept i b) k);
        unused =
            λ own k. let u = h.unused own k in (u.0, swaps_kept (swap_backed own) refl ∙ u.1, u.2);
      }

  -- A new page, of the first free block.
  module _ (s : Memory) (free : List ℕ) (next_page block : ℕ)
      (h : Pool s (block ∷ free) next_page) where
    abbrev own_id : FileId
    own_id = swap_backed block

    first :
        (count block (block ∷ free) ≡ 1)
        × (s.peer_map own_id ≡ [])
        × ((s.peer_in_phys own_id ≡ none) ⊎ (s.peer_in_phys own_id ≡ some 0))
    first = h.unused block (omega (arith, count_self block free))

    abbrev peers' : FileId → List ℕ
    peers' = assign s.peer_map own_id (s.peer_map own_id ++ next_page ∷ [])

    own_peers : peers' own_id ≡ next_page ∷ []
    own_peers =
        assign_self s.peer_map own_id (s.peer_map own_id ++ next_page ∷ [])
        ∙ ap (λ xs. xs ++ next_page ∷ []) first.1

    other_block : (own : ℕ) → 1 ≤ count own free → own ≢ block
    other_block own k e =
        omega (arith, first.0, count_self block free, subst (λ x. 1 ≤ count x free) e k)

    swap_inj : (a b : ℕ) → swap_backed a ≡ swap_backed b → a ≡ b
    swap_inj a b e = cc

    pub Pool-map_swap :
        Pool
          (with_page next_page own_id
            (record { ppage = 0; read_enable = true; write_enable = false })
            (record s { peer_in_phys = assign s.peer_in_phys own_id (some 0) }))
          free
          (suc next_page)
    Pool-map_swap = record {
      sound =
          map_swap-Sound read n next_page block s h.sound (fresh s (block ∷ free) next_page h)
            first.1 first.2;
      new_page = newer s (block ∷ free) next_page h own_id;
      single = λ i w b k. elim (new_peer-cases s.peer_map own_id next_page i w k) [
        | inl new ↦ ap peers' (sym new.1) ∙ own_peers ∙ ap (λ x. x ∷ []) (sym new.0)
        | inr old ↦
            let ne : own_id ≢ i =
              λ e. Memᴰ.not-nil (subst (Memᴰ w) (ap s.peer_map (sym e) ∙ first.1) old) in
            assign_ne s.peer_map own_id i _ ne ∙ h.single i w b old
      ];
      unused = λ own k.
          let other = other_block own k in
          let ne : own_id ≢ swap_backed own = λ e. other (sym (swap_inj block own e)) in
          let u = h.unused own (omega (arith, count-cons own block free, k)) in
          let e = assign_ne s.peer_in_phys own_id (swap_backed own) (some 0) ne in
          (
            sym (count-other own block free other) ∙ u.0,
            assign_ne s.peer_map own_id (swap_backed own) _ ne ∙ u.1,
            elim u.2 [ inl z ↦ inl (e ∙ z) | inr z ↦ inr (e ∙ z) ],
          );
    }
