-- ===== src/Pager/Valid/Destroy.antt =====
-- vm_destroy (Project3/my_vm_pager.cpp).
use eecs.Base.{
  Memᴰ, ℕ, ◌+◌, ◌≡◌, ◌≢◌, refl, sym, ap, subst, ◌∙◌, inl, inr, true, false, List, [], ◌∷◌, ◌++◌,
  length, Option, none, some, arith, length-append,
}
use eecs.Pager.Files.{
  FileId, swap_backed, file_backed, is_swap_backed, assign, assign_self, assign_ne, FileId-cases,
}
use eecs.Pager.Memory.{Page, FileEvent, Memory, put}
use eecs.Pager.Processes.{
  Pager, remove_first, release_page, block_of, release_all, erase_pid, destroy_table,
  destroy_current, vm_destroy,
}
use eecs.Pager.Frames.{remove_first-keeps}
use eecs.Pager.Tables.{put_self, put-ne, ℕ-cases}
use eecs.Pager.Sound.Release.{Released}
use eecs.Pager.Pool.{Pool, Pool-release, released}
use eecs.Pager.Valid.{Valid, Once, swaps}

module _ (read : List FileEvent → FileId → Option Page) (n : ℕ) where
  -- Some virtual pages have been released, and their swap blocks are free.
  pub record Cleared (vs : List ℕ) (s after : Pager) : Type 0 where
    pub same :
        after
        ≡ record s { memory = after.memory; available_swap_blocks = after.available_swap_blocks }
    pub pool : Pool read n after.memory after.available_swap_blocks s.next_page
    pub same_id : after.memory.id ≡ s.memory.id
    pub others :
        (i : FileId) (w : ℕ)
        → ¬ Memᴰ w vs
        → Memᴰ w (s.memory.peer_map i)
        → Memᴰ w (after.memory.peer_map i)
    pub blocks :
        length after.available_swap_blocks ≡ length s.available_swap_blocks + swaps s.memory.id vs

  -- The first page of a list.
  module _ (v : ℕ) (vs : List ℕ) (s : Pager)
      (pool : Pool read n s.memory s.available_swap_blocks s.next_page)
      (m : Memᴰ v (s.memory.peer_map (s.memory.id v))) where
    abbrev moved : Pager
    moved = record s {
      memory = release_page v s.memory;
      available_swap_blocks = s.available_swap_blocks ++ block_of (s.memory.id v);
    }

    gone : Released read n v s.memory (release_page v s.memory)
    gone = released read n s.memory s.available_swap_blocks s.next_page pool v m

    kept_page :
        (i : FileId) (w : ℕ)
        → w ≢ v
        → Memᴰ w (s.memory.peer_map i)
        → Memᴰ w (moved.memory.peer_map i)
    kept_page i w ne k =
        subst (Memᴰ w) (sym (ap (λ f. f i) gone.peers)) (elim (FileId-cases (s.memory.id v) i) [
          | inl same ↦ subst at same own k
          | inr other ↦
              subst (Memᴰ w) (sym (assign_ne s.memory.peer_map (s.memory.id v) i _ other)) k
        ])
      where
        at : FileId → Type 0
        at i =
            Memᴰ w (s.memory.peer_map i)
            → Memᴰ w (
                assign s.memory.peer_map (s.memory.id v)
                  (remove_first v (s.memory.peer_map (s.memory.id v))) i)

        own : at (s.memory.id v)
        own k =
            subst (Memᴰ w) (sym (assign_self s.memory.peer_map (s.memory.id v) _))
              (remove_first-keeps w v (s.memory.peer_map (s.memory.id v)) ne k)

    block-count :
        (i : FileId)
        → s.memory.id v ≡ i
        → length (s.available_swap_blocks ++ block_of i) + swaps s.memory.id vs
          ≡ length s.available_swap_blocks + swaps s.memory.id (v ∷ vs)
    unfolding swaps
    block-count (swap_backed block) e =
        let k : is_swap_backed (s.memory.id v) ≡ true = ap is_swap_backed e in
        ground (arith, length-append s.available_swap_blocks (block ∷ []), k)
    block-count (file_backed filename block) e =
        let k : is_swap_backed (s.memory.id v) ≡ false = ap is_swap_backed e in
        ground (arith, length-append s.available_swap_blocks [], k)

    first-Cleared :
        (after : Pager) → ¬ Memᴰ v vs → Cleared vs moved after → Cleared (v ∷ vs) s after
    first-Cleared after new c = record {
      same = c.same;
      pool = c.pool;
      same_id = c.same_id ∙ gone.same_id;
      others = λ i w out k.
          c.others i w (λ z. out (Memᴰ.tail z)) (kept_page i w (λ z. out (Memᴰ.head z)) k);
      blocks =
          c.blocks
          ∙ ap (λ f. length (s.available_swap_blocks ++ block_of (s.memory.id v)) + swaps f vs)
              gone.same_id
          ∙ block-count (s.memory.id v) refl;
    }

    moved-Pool : Pool read n moved.memory moved.available_swap_blocks moved.next_page
    moved-Pool = Pool-release read n s.memory s.available_swap_blocks s.next_page pool v m

  release_all-Cleared :
      (vs : List ℕ) (s : Pager)
      → Pool read n s.memory s.available_swap_blocks s.next_page
      → ((v : ℕ) → Memᴰ v vs → Memᴰ v (s.memory.peer_map (s.memory.id v)))
      → Once vs
      → Cleared vs s (release_all vs s)
  unfolding release_all
  release_all-Cleared [] s pool mapped once = record {
    same = refl;
    pool = pool;
    same_id = refl;
    others = λ i w out k. k;
    blocks = unfold swaps in omega arith;
  }
  release_all-Cleared (v ∷ vs) s pool mapped once =
      let m = mapped v (Memᴰ.head refl) in
      let s' = moved v vs s pool m in
      first-Cleared v vs s pool m (release_all vs s') once.0 (
        release_all-Cleared vs s' (moved-Pool v vs s pool m)
          (λ w k.
            subst (λ i. Memᴰ w (s'.memory.peer_map i))
              (sym (ap (λ f. f w) (gone v vs s pool m).same_id))
              (kept_page v vs s pool m (s.memory.id w) w (λ e. once.0 (subst (λ x. Memᴰ x vs) e k))
                (mapped w (Memᴰ.tail k))))
          once.1)

  module _ (s : Pager) (h : Valid read n s) (t : ℕ) (now : s.cur_table ≡ some t) (memory : Memory)
      (free : List ℕ)
      (c : Cleared
        (s.store t).vps
        s
        (record s { memory = memory; available_swap_blocks = free })) where
    abbrev pid : ℕ
    pid = (h.current t now).0

    its : s.tables pid ≡ some t
    its = (h.current t now).2

    abbrev cleared : Pager
    cleared = record s { memory = memory; available_swap_blocks = free }

    abbrev tables' : ℕ → Option ℕ
    tables' = erase_pid s.cur_pid s.tables

    erased : tables' ≡ put s.tables pid none
    erased = ap (λ o. erase_pid o s.tables) (h.current t now).1

    left : (q t' : ℕ) → tables' q ≡ some t' → (s.tables q ≡ some t') × (t' ≢ t)
    left q t' e = elim (ℕ-cases q pid) [
      | inl same ↦
          let k : Path (Option ℕ) none (some t') =
            sym
              (ap (λ f. f q) erased ∙ ap (put s.tables pid none) same ∙ put_self s.tables pid none)
            ∙ e in
          cc
      | inr ne ↦
          let k = sym (ap (λ f. f q) erased ∙ put-ne s.tables pid q none ne) ∙ e in
          (k, λ z. ne (h.one_owner q pid t (k ∙ ap some z) its))
    ]

    destroy_table-Valid : Valid read n (destroy_table t cleared)
    destroy_table-Valid = record {
      num = h.num;
      pool = c.pool;
      current = λ t' e. cc;
      new_table = λ q t' e. h.new_table q t' (left q t' e).0;
      one_owner = λ q q' t' e e'. h.one_owner q q' t' (left q t' e).0 (left q' t' e').0;
      mapped = λ q t' v e m.
          let l = left q t' e in
          subst (λ i. Memᴰ v (memory.peer_map i)) (sym (ap (λ f. f v) c.same_id))
            (c.others (s.memory.id v) v (h.apart q pid t' t v l.0 its l.1 m)
              (h.mapped q t' v l.0 m));
      counted = λ q t' e. h.counted q t' (left q t' e).0;
      fits = λ q t' e. h.fits q t' (left q t' e).0;
      once = λ q t' e. h.once q t' (left q t' e).0;
      apart =
          λ q q' t' t'' v e e' ne m. h.apart q q' t' t'' v (left q t' e).0 (left q' t'' e').0 ne m;
      reserve = omega (arith, h.reserve, h.occupied pid t its, c.blocks);
      occupied = λ q t' e.
          h.occupied q t' (left q t' e).0 ∙ ap (λ f. swaps f (s.store t').vps) (sym c.same_id);
    }

  -- vm_destroy of the current process.
  pub vm_destroy-Valid :
      (s : Pager) (t : ℕ)
      → Valid read n s
      → s.cur_table ≡ some t
      → (after : Pager) × (vm_destroy s ≡ some after) × Valid read n after
  unfolding vm_destroy
  vm_destroy-Valid s t h now =
      let c =
        release_all-Cleared (s.store t).vps s h.pool
          (λ v m. h.mapped (h.current t now).0 t v (h.current t now).2 m)
          (h.once (h.current t now).0 t (h.current t now).2) in
      let s1 = release_all (s.store t).vps s in
      (
        destroy_table t s1,
        ap (λ o. destroy_current o s) now,
        subst (λ x. Valid read n (destroy_table t x)) (sym c.same)
            (destroy_table-Valid s h t now s1.memory s1.available_swap_blocks
              (subst (Cleared (s.store t).vps s) c.same c)),
      )
