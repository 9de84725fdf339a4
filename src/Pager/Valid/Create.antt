-- ===== src/Pager/Valid/Create.antt =====
-- vm_init, vm_create and vm_switch.
use eecs.Base.{
  Memᴰ, ℕ, zero, suc, ◌-◌, ◌^◌, ◌≤◌, ◌≡◌, ◌≢◌, refl, sym, ap, subst, ◌∙◌, ◌⊎◌, inl, inr, Bool, true,
  false, List, length, Option, none, some, if◌then◌else◌, arith, ltb,
}
use mathlib.Core.List.Memᴰ
use eecs.Pager.Files.{FileId}
use eecs.Pager.Memory.{Page, FileEvent, Entry, put}
use eecs.Pager.Processes.{
  PageTable, Pager, globals, count_from, new_table, vm_init, add_table, reserve, or_fail, vm_create,
  same_pid, set_table, vm_switch,
}
use eecs.Pager.Frames.{count-within, count-bounds}
use eecs.Pager.Tables.{put_self, put-ne, ℕ-cases}
use eecs.Pager.Sound.Start.{vm_init-Sound}
use eecs.Pager.Valid.{Valid, Once, swaps}

module _ (read : List FileEvent → FileId → Option Page) (n : ℕ) where
  length-count_from : (i k : ℕ) → length (count_from i k) ≡ k
  unfolding count_from
  length-count_from i zero = refl
  length-count_from i (suc k) = ap suc (length-count_from (suc i) k)

  -- After vm_init, if the physical memory has 2^32 bytes at most.
  pub vm_init-Valid :
      (blocks : ℕ) (physmem : ℕ → Page) (entry : ℕ → Entry)
      → n ≤ 2 ^ 16
      → Valid read n (vm_init n blocks (globals physmem entry))
  unfolding vm_init
  vm_init-Valid blocks physmem entry small = record {
    num = refl;
    pool = record {
      sound = vm_init-Sound read n blocks physmem entry small;
      new_page = λ i v m. absurd (Memᴰ.not-nil m);
      single = λ i v b m. absurd (Memᴰ.not-nil m);
      unused = λ b k.
          let r = count-bounds b 0 blocks k in (count-within b 0 blocks r.0 r.1, refl, inl refl);
    };
    current = λ t e. cc;
    new_table = λ pid t e. cc;
    one_owner = λ pid pid' t e e'. cc;
    mapped = λ pid t v e m. absurd (Memᴰ.not-nil m);
    counted = λ pid t e. refl;
    fits = λ pid t e. omega arith;
    once = λ pid t e. tt;
    apart = λ pid pid' t t' v e e' ne m. absurd (Memᴰ.not-nil m);
    reserve = omega (arith, length-count_from 0 blocks);
    occupied = λ pid t e. unfold swaps in refl;
  }

  module _ (s : Pager) (h : Valid read n s) where
    -- Fewer blocks can be reserved.
    Valid-less : (k : ℕ) → k ≤ s.num_swap_blocks → Valid read n (record s { num_swap_blocks = k })
    Valid-less k l = record {
      num = h.num;
      pool = h.pool;
      current = h.current;
      new_table = h.new_table;
      one_owner = h.one_owner;
      mapped = h.mapped;
      counted = h.counted;
      fits = h.fits;
      once = h.once;
      apart = h.apart;
      reserve = omega (arith, h.reserve, l);
      occupied = h.occupied;
    }

    module _ (child : ℕ) (free : s.tables child ≡ none) where
      abbrev tables' : ℕ → Option ℕ
      tables' = put s.tables child (some s.next_table)

      abbrev store' : ℕ → PageTable
      store' = put s.store s.next_table new_table

      -- A table is the child's, and empty, or was there.
      which :
          (pid t : ℕ)
          → tables' pid ≡ some t
          → ((pid ≡ child) × (t ≡ s.next_table) × (store' t ≡ new_table))
            ⊎ ((pid ≢ child) × (s.tables pid ≡ some t) × (store' t ≡ s.store t))
      which pid t e = elim (ℕ-cases pid child) [
        | inl same ↦
            let k : Path (Option ℕ) (some s.next_table) (some t) =
              sym (ap tables' same ∙ put_self s.tables child (some s.next_table)) ∙ e in
            let k' : s.next_table ≡ t = cc in
            inl (same, sym k', ap store' (sym k') ∙ put_self s.store s.next_table new_table)
        | inr ne ↦
            let k = sym (put-ne s.tables child pid (some s.next_table) ne) ∙ e in
            inr (
              ne,
              k,
              put-ne s.store s.next_table t new_table (λ z. omega (arith, z, h.new_table pid t k)),
            )
      ]

      no_page : (t v : ℕ) → store' t ≡ new_table → ¬ Memᴰ v (store' t).vps
      no_page t v e m = Memᴰ.not-nil (subst (λ x. Memᴰ v x.vps) e m)

      empty_table :
          (t : ℕ)
          → store' t ≡ new_table
          → (store' t).occupied_swap_blocks ≡ swaps s.memory.id (store' t).vps
      unfolding swaps
      empty_table t e = subst (λ x. x.occupied_swap_blocks ≡ swaps s.memory.id x.vps) (sym e) refl

      pub add_table-Valid : Valid read n (add_table child s)
      unfolding add_table
      add_table-Valid = record {
        num = h.num;
        pool = h.pool;
        current = λ t e.
            let c = h.current t e in
            let ne : c.0 ≢ child = λ z.
              let k : Path (Option ℕ) none (some t) = sym free ∙ ap s.tables (sym z) ∙ c.2 in cc in
            (c.0, c.1, put-ne s.tables child c.0 (some s.next_table) ne ∙ c.2);
        new_table = λ pid t e. elim (which pid t e) [
          | inl w ↦ omega (arith, w.1)
          | inr w ↦ omega (arith, h.new_table pid t w.1)
        ];
        one_owner = λ pid pid' t e e'. elim (which pid t e) [
          | inl w ↦ elim (which pid' t e') [
            | inl w' ↦ w.0 ∙ sym w'.0
            | inr w' ↦ absurd (omega (arith, w.1, h.new_table pid' t w'.1))
          ]
          | inr w ↦ elim (which pid' t e') [
            | inl w' ↦ absurd (omega (arith, w'.1, h.new_table pid t w.1))
            | inr w' ↦ h.one_owner pid pid' t w.1 w'.1
          ]
        ];
        mapped = λ pid t v e m. elim (which pid t e) [
          | inl w ↦ absurd (no_page t v w.2 m)
          | inr w ↦ h.mapped pid t v w.1 (subst (λ x. Memᴰ v x.vps) w.2 m)
        ];
        counted = λ pid t e. elim (which pid t e) [
          | inl w ↦ subst (λ x. x.cnt ≡ length x.vps) (sym w.2) refl
          | inr w ↦ subst (λ x. x.cnt ≡ length x.vps) (sym w.2) (h.counted pid t w.1)
        ];
        fits = λ pid t e. elim (which pid t e) [
          | inl w ↦ subst (λ x. x.cnt ≤ 256) (sym w.2) (omega arith)
          | inr w ↦ subst (λ x. x.cnt ≤ 256) (sym w.2) (h.fits pid t w.1)
        ];
        once = λ pid t e. elim (which pid t e) [
          | inl w ↦ subst (λ x. Once x.vps) (sym w.2) tt
          | inr w ↦ subst (λ x. Once x.vps) (sym w.2) (h.once pid t w.1)
        ];
        apart = λ pid pid' t t' v e e' ne m m'. elim (which pid t e) [
          | inl w ↦ no_page t v w.2 m
          | inr w ↦ elim (which pid' t' e') [
            | inl w' ↦ no_page t' v w'.2 m'
            | inr w' ↦
                h.apart pid pid' t t' v w.1 w'.1 ne (subst (λ x. Memᴰ v x.vps) w.2 m)
                  (subst (λ x. Memᴰ v x.vps) w'.2 m')
          ]
        ];
        reserve = h.reserve;
        occupied = λ pid t e. elim (which pid t e) [
          | inl w ↦ empty_table t w.2
          | inr w ↦
              subst (λ x. x.occupied_swap_blocks ≡ swaps s.memory.id x.vps) (sym w.2)
                (h.occupied pid t w.1)
        ];
      }

  module _ (s : Pager) (h : Valid read n s) (child : ℕ) (free : s.tables child ≡ none) where
    reserve-Valid : (o : Option ℕ) → Valid read n (or_fail s (add_table child) (reserve o s)).0
    unfolding reserve
    reserve-Valid none = add_table-Valid s h child free
    reserve-Valid (some parent) = go (ltb s.num_swap_blocks (s.store parent).occupied_swap_blocks)
      where
        go :
            (b : Bool)
            → Valid read n
                (or_fail s (add_table child) (
                  if b
                  then none
                  else some (record s {
                    num_swap_blocks = s.num_swap_blocks - (s.store parent).occupied_swap_blocks;
                  }))).0
        go true = h
        go false =
            add_table-Valid
              (record s {
                num_swap_blocks = s.num_swap_blocks - (s.store parent).occupied_swap_blocks;
              })
              (Valid-less s h (s.num_swap_blocks - (s.store parent).occupied_swap_blocks)
                (omega arith))
              child free

    pub vm_create-Valid : (parent : ℕ) → Valid read n (vm_create parent child s).0
    unfolding vm_create
    vm_create-Valid parent = reserve-Valid (s.tables parent)

  module _ (s : Pager) (h : Valid read n s) (pid : ℕ) where
    switched :
        (o : Option ℕ)
        → s.tables pid ≡ o
        → ¬ (o ≡ none)
        → (after : Pager) × (set_table pid o s ≡ some after) × Valid read n after
    switched none e has = absurd (has refl)
    switched (some t) e has = (
      record s { cur_table = some t; cur_pid = some pid },
      refl,
      record {
        num = h.num;
        pool = h.pool;
        current = λ t' k. let k' : t ≡ t' = cc in (pid, refl, e ∙ ap some k');
        new_table = h.new_table;
        one_owner = h.one_owner;
        mapped = h.mapped;
        counted = h.counted;
        fits = h.fits;
        once = h.once;
        apart = h.apart;
        reserve = h.reserve;
        occupied = h.occupied;
      },
    )

    pub vm_switch-Valid :
        ¬ (s.tables pid ≡ none)
        → (after : Pager) × (vm_switch pid s ≡ some after) × Valid read n after
    unfolding vm_switch
    vm_switch-Valid has = go (same_pid s.cur_pid pid)
      where
        go :
            (b : Bool)
            → (after : Pager) × ((if b then some s else set_table pid (s.tables pid) s)
                ≡ some after)
              × Valid read n after
        go true = (s, refl, h)
        go false = switched (s.tables pid) refl has
