-- ===== src/Pager/Runs.antt =====
-- The runs of the pager: what the kernel may call (Project3/vm_pager.h), in any order, and the stores
-- of the processes.
use eecs.Base.{
  ℕ, ◌-◌, ◌≤◌, ◌^◌, ◌≡◌, ◌≢◌, refl, sym, ap, subst, ◌∙◌, inl, inr, Bool, true, false, Option, none,
  some, List, Option-cases, ltb, if◌then◌else◌,
}
use eecs.Pager.Files.{FileId}
use eecs.Pager.Memory.{Page, FileEvent, Entry, put}
use eecs.Pager.Faults.{fmap}
use eecs.Pager.Processes.{
  Pager, globals, vm_init, vm_create, vm_switch, vm_fault, vm_destroy, vm_map, add_table, reserve,
  or_fail, same_pid, set_table, erase_pid, release_all, destroy_current,
}
use eecs.Pager.Tables.{put_self, put-ne}
use eecs.Pager.Sound.{Files}
use eecs.Pager.Valid.{Valid}
use eecs.Pager.Valid.Create.{vm_init-Valid, vm_create-Valid, vm_switch-Valid}
use eecs.Pager.Valid.Fault.{vm_fault-Valid}
use eecs.Pager.Valid.Destroy.{vm_destroy-Valid}
use eecs.Pager.Valid.Names.{vm_map-Valid}
use eecs.Pager.Stores.{store, store-Valid}

pub data Call : Type 0 where
  creates : ℕ → ℕ → Call
  switches : ℕ → Call
  faults : ℕ → Bool → Call
  maps : Option ℕ → ℕ → Call
  destroys : Call
  stores : ℕ → ℕ → Call

-- The process that the kernel has switched to last has been created, and has not been destroyed.
abbrev pub Current : Pager → Type 0
Current s = (pid : ℕ) × (s.cur_pid ≡ some pid) × ¬ (s.tables pid ≡ none)

-- What may happen: the kernel creates a process under a number that is in use neither now nor by the
-- process that it has switched to last, and switches to a process that there is; the rest is for the
-- current process, the store of a byte by the process too.
abbrev pub Allowed : Call → Pager → Type 0
Allowed (creates parent child) s = (s.tables child ≡ none) × (s.cur_pid ≢ some child)
Allowed (switches pid) s = ¬ (s.tables pid ≡ none)
Allowed (faults addr write_flag) s = Current s
Allowed (maps filename block) s = Current s
Allowed destroys s = Current s
Allowed (stores addr c) s = Current s

-- The pager's table is that of the process that the kernel has switched to last, if it has one.
abbrev Linked : Pager → Type 0
Linked s = (pid t : ℕ) → s.cur_pid ≡ some pid → s.tables pid ≡ some t → s.cur_table ≡ some t

Current-cur_table : (s : Pager) → Linked s → Current s → (t : ℕ) × (s.cur_table ≡ some t)
Current-cur_table s linked (pid, e, has) = elim (Option-cases (s.tables pid)) [
  | inl gone ↦ absurd (has gone)
  | inr (t, its) ↦ (t, linked pid t e its)
]

some_ne_none : {t : ℕ} → Path (Option ℕ) none (some t) → ⊥
some_ne_none e = cc

same_number : {a b : ℕ} → Path (Option ℕ) (some a) (some b) → a ≡ b
same_number e = cc

-- What a new process leaves as it is.
module _ (s : Pager) (linked : Linked s) (child : ℕ) (fresh : s.cur_pid ≢ some child) where
  add_table-Linked : Linked (add_table child s)
  unfolding add_table
  add_table-Linked pid t e its =
      let ne : pid ≢ child = λ z. fresh (e ∙ ap some z) in
      linked pid t e (sym (put-ne s.tables child pid (some s.next_table) ne) ∙ its)

vm_create-Linked :
    (s : Pager) (parent child : ℕ)
    → Linked s
    → s.cur_pid ≢ some child
    → Linked (vm_create parent child s).0
unfolding vm_create reserve
vm_create-Linked s parent child linked fresh = go (s.tables parent)
  where
    reserved :
        (parent : ℕ) (b : Bool)
        → Linked
            (or_fail s (add_table child) (
              if b
              then none
              else some (record s {
                num_swap_blocks = s.num_swap_blocks - (s.store parent).occupied_swap_blocks;
              }))).0
    reserved parent true = linked
    reserved parent false =
        add_table-Linked
          (record s { num_swap_blocks = s.num_swap_blocks - (s.store parent).occupied_swap_blocks })
          linked child fresh

    go : (o : Option ℕ) → Linked (or_fail s (add_table child) (reserve o s)).0
    go none = add_table-Linked s linked child fresh
    go (some parent) = reserved parent (ltb s.num_swap_blocks (s.store parent).occupied_swap_blocks)

vm_switch-Linked :
    (s after : Pager) (pid : ℕ) → Linked s → vm_switch pid s ≡ some after → Linked after
unfolding vm_switch
vm_switch-Linked s after pid linked = go (same_pid s.cur_pid pid)
  where
    inj : {a b : Pager} → some a ≡ some b → a ≡ b
    inj e = cc

    at_table : (o : Option ℕ) → s.tables pid ≡ o → set_table pid o s ≡ some after → Linked after
    at_table none q e = cc
    at_table (some u) q e =
        subst Linked (inj e) λ pid' t e' its. let k = same_number e' in sym q ∙ ap s.tables k ∙ its

    go :
        (b : Bool)
        → (if b then some s else set_table pid (s.tables pid) s) ≡ some after
        → Linked after
    go true e = subst Linked (inj e) linked
    go false e = at_table (s.tables pid) refl e

erased :
    (o : Option ℕ) (tables : ℕ → Option ℕ) (pid t : ℕ)
    → o ≡ some pid
    → erase_pid o tables pid ≡ some t
    → ⊥
erased none tables pid t e its = absurd (cc)
erased (some p) tables pid t e its =
    some_ne_none (sym (put_self tables p none) ∙ ap (put tables p none) (same_number e) ∙ its)

vm_destroy-Linked : (s after : Pager) → vm_destroy s ≡ some after → Linked after
unfolding vm_destroy
vm_destroy-Linked s after = go s.cur_table
  where
    inj : {a b : Pager} → some a ≡ some b → a ≡ b
    inj e = cc

    go : (o : Option ℕ) → destroy_current o s ≡ some after → Linked after
    go none e = cc
    go (some t) e =
        subst Linked (inj e)
          λ pid t' e' its. absurd (erased (release_all (s.store t).vps s).cur_pid _ pid t' e' its)

module _ (read : List FileEvent → FileId → Option Page) where
  -- The state after a call; `none` for undefined behaviour.
  unfoldable pub perform : Call → Pager → Option Pager
  unfolding vm_create vm_switch vm_fault vm_map vm_destroy store
  perform (creates parent child) s = some (vm_create parent child s).0
  perform (switches pid) s = vm_switch pid s
  perform (faults addr write_flag) s = fmap (λ r. r.0) (vm_fault read addr write_flag s)
  perform (maps filename block) s = fmap (λ r. r.0) (vm_map read filename block s)
  perform destroys s = vm_destroy s
  perform (stores addr c) s = store addr c s

  pub data Reach (n : ℕ) : Pager → Type 0 where
    start :
        (blocks : ℕ) (physmem : ℕ → Page) (entry : ℕ → Entry)
        → Reach n (vm_init n blocks (globals physmem entry))
    step :
        {s : Pager} (c : Call) (after : Pager)
        → Reach n s
        → Allowed c s
        → perform c s ≡ some after
        → Reach n after

  module _ (laws : Files read) (n : ℕ) (two : 2 ≤ n) where
    Ready : Pager → Type 0
    Ready s = Valid read n s × Linked s

    -- A valid state in which a table is current.
    current-Ready : (s : Pager) (t : ℕ) → Valid read n s → s.cur_table ≡ some t → Ready s
    unfolding Ready
    current-Ready s t v now =
        let c = v.current t now in
        (v, λ pid t' e its. now ∙ sym c.2 ∙ ap s.tables (same_number (sym c.1 ∙ e)) ∙ its)

    perform-Ready :
        (c : Call) (s : Pager)
        → Ready s
        → Allowed c s
        → (after : Pager) × (perform c s ≡ some after) × Ready after
    unfolding perform Ready
    perform-Ready (creates parent child) s h allowed = (
      (vm_create parent child s).0,
      refl,
      (
        vm_create-Valid read n s h.0 child allowed.0 parent,
        vm_create-Linked s parent child h.1 allowed.1,
      ),
    )
    perform-Ready (switches pid) s h has =
        let r = vm_switch-Valid read n s h.0 pid has in
        (r.0, r.1, (r.2, vm_switch-Linked s r.0 pid h.1 r.1))
    perform-Ready (faults addr write_flag) s h now =
        let (t, current) = Current-cur_table s h.1 now in
        let c = h.0.current t current in
        let r = vm_fault-Valid read laws n two s h.0 c.0 t c.2 current addr write_flag in
        (r.0, ap (fmap (λ x. x.0)) r.2, current-Ready r.0 t r.3 (r.4.2 ∙ current))
    perform-Ready (maps filename block) s h now =
        let (t, current) = Current-cur_table s h.1 now in
        let c = h.0.current t current in
        let r = vm_map-Valid read laws n two c.0 t s h.0 c.2 current filename block in
        (r.0, ap (fmap (λ x. x.0)) r.2, current-Ready r.0 t r.3 r.4)
    perform-Ready destroys s h now =
        let (t, current) = Current-cur_table s h.1 now in
        let r = vm_destroy-Valid read n s t h.0 current in
        (r.0, r.1, (r.2, vm_destroy-Linked s r.0 r.1))
    perform-Ready (stores addr value) s h now =
        let (t, current) = Current-cur_table s h.1 now in
        let c = h.0.current t current in
        let r = store-Valid read n s h.0 c.0 t c.2 current addr value in
        (r.0, r.1, current-Ready r.0 t r.2 r.3)

    some_inj : {a b : Pager} → some a ≡ some b → a ≡ b
    some_inj e = cc

    Reach-Ready : (s : Pager) → n ≤ 2 ^ 16 → Reach n s → Ready s
    unfolding Ready vm_init
    Reach-Ready _ small (start blocks physmem entry) =
        (vm_init-Valid read n blocks physmem entry small, λ pid t e its. cc)
    Reach-Ready _ small (step {s} c after r allowed e) =
        let v = perform-Ready c s (Reach-Ready s small r) allowed in
        subst Ready (some_inj (sym v.1 ∙ e)) v.2

    -- With two physical pages at least, of 2^32 bytes together at most, and with files that behave as
    -- vm_pager.h says, every state that allowed calls and stores lead to, from vm_init on, is valid: each
    -- physical page is in one queue, once, and holds what the tables say; the enabled entries lead to the
    -- pages with the data; each table has as many pages as it counts, 256 at most; each virtual page is in
    -- one table; and each swap block is free or of one page. Allowed are a new process under a number that is
    -- not in use and is not that of the last switch, a switch to a process that there is, and the rest for
    -- the process of the last switch, if it has not been destroyed.
    pub Reach-Valid : (s : Pager) → n ≤ 2 ^ 16 → Reach n s → Valid read n s
    unfolding Ready
    Reach-Valid s small r = (Reach-Ready s small r).0

    -- With two physical pages at least, of 2^32 bytes together at most, and with files that behave as
    -- vm_pager.h says: in every state that allowed calls and stores lead to, from vm_init on, an allowed
    -- one goes through: it takes no element of an empty queue, follows no null pointer, looks for no page
    -- of a table behind the last one, and ends its loops. Allowed are a new process under a number that is
    -- not in use and is not that of the last switch, a switch to a process that there is, and the rest for
    -- the process of the last switch, if it has not been destroyed.
    pub Reach-perform :
        (s : Pager) (c : Call)
        → n ≤ 2 ^ 16
        → Reach n s
        → Allowed c s
        → (after : Pager) × (perform c s ≡ some after)
    Reach-perform s c small r allowed =
        let v = perform-Ready c s (Reach-Ready s small r) allowed in (v.0, v.1)
