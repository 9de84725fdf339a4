-- ===== src/Pager/Reused.antt =====
-- A process under the number of the one that has just ended (Project3/my_vm_pager.cpp).
use eecs.Base.{
  ℕ, ◌≡◌, refl, ap, subst, ◌∙◌, Bool, true, false, List, [], ◌∷◌, Option, none, some, ◌==◌,
  if◌then◌else◌, arith, ltb, ◌-◌, ◌++◌,
}
use eecs.Pager.Files.{FileId}
use eecs.Pager.Memory.{Page, FileEvent}
use eecs.Pager.Processes.{
  Pager, add_table, reserve, or_fail, vm_create, same_pid, set_table, vm_switch, block_of,
  release_page, release_all, destroy_current, vm_destroy, fault_in, vm_fault,
}

release_all-cur_pid : (vs : List ℕ) (s : Pager) → (release_all vs s).cur_pid ≡ s.cur_pid
unfolding release_all
release_all-cur_pid [] s = refl
release_all-cur_pid (v ∷ vs) s = release_all-cur_pid vs (record s {
  memory = release_page v s.memory;
  available_swap_blocks = s.available_swap_blocks ++ block_of (s.memory.id v);
})

-- No table is current, and the number of the last process is.
abbrev Ended : ℕ → Pager → Type 0
Ended pid s = (s.cur_pid ≡ some pid) × (s.cur_table ≡ none)

some_inj : {a b : Pager} → some a ≡ some b → a ≡ b
some_inj e = cc

destroyed :
    (pid : ℕ) (s s1 : Pager) (o : Option ℕ)
    → s.cur_pid ≡ some pid
    → destroy_current o s ≡ some s1
    → Ended pid s1
destroyed pid s s1 none e d = absurd (cc)
destroyed pid s s1 (some t) e d =
    subst (Ended pid) (some_inj d) (release_all-cur_pid (s.store t).vps s ∙ e, refl)

reserved :
    (pid child : ℕ) (s : Pager) (o : Option ℕ)
    → Ended pid s
    → Ended pid (or_fail s (add_table child) (reserve o s)).0
unfolding reserve add_table
reserved pid child s none e = e
reserved pid child s (some parent) e =
    go (ltb s.num_swap_blocks (s.store parent).occupied_swap_blocks)
  where
    go :
        (b : Bool)
        → Ended pid
            (or_fail s (add_table child) (
              if b
              then none
              else some (record s {
                num_swap_blocks = s.num_swap_blocks - (s.store parent).occupied_swap_blocks;
              }))).0
    go true = e
    go false = e

-- After vm_destroy of a process, and vm_create of one under the same number, vm_switch to it changes
-- nothing, and the first fault follows the null pointer that vm_destroy has left.
pub vm_destroy-vm_switch :
    (read : List FileEvent → FileId → Option Page) (pid parent addr : ℕ) (write_flag : Bool)
    (s s1 : Pager)
    → s.cur_pid ≡ some pid
    → vm_destroy s ≡ some s1
    → (vm_switch pid (vm_create parent pid s1).0 ≡ some (vm_create parent pid s1).0)
      × (vm_fault read addr write_flag (vm_create parent pid s1).0 ≡ none)
unfolding vm_destroy vm_create vm_switch vm_fault
vm_destroy-vm_switch read pid parent addr write_flag s s1 e d =
    let ended = reserved pid pid s1 (s1.tables parent) (destroyed pid s s1 s.cur_table e d) in
    let s2 = (or_fail s1 (add_table pid) (reserve (s1.tables parent) s1)).0 in
    (
      ap (λ o. if same_pid o pid then some s2 else set_table pid (s2.tables pid) s2) ended.0
          ∙ ap (λ b. if b then some s2 else set_table pid (s2.tables pid) s2) (same pid),
      ap (λ o. fault_in read o addr write_flag s2) ended.1,
    )
  where
    same : (pid : ℕ) → (pid == pid) ≡ true
    same pid = ground arith
