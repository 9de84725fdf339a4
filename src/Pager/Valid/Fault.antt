-- ===== src/Pager/Valid/Fault.antt =====
-- vm_fault (Project3/my_vm_pager.cpp).
use eecs.Base.{
  Memᴰ, ℕ, zero, suc, ◌≤◌, ◌<◌, ◌≡◌, refl, ap, ◌∙◌, inl, inr, Bool, List, [], ◌∷◌, length, Option,
  some, if◌then◌else◌, arith, Bool-cases, leb, get_elem?,
}
use eecs.Pager.Files.{FileId}
use eecs.Pager.Memory.{Page, FileEvent}
use eecs.Pager.Faults.{Status, failure, fmap}
use eecs.Pager.Processes.{Pager, vpn_of, with_memory, fault_at, fault_in, vm_fault}
use eecs.Pager.Sound.{Files}
use eecs.Pager.Sound.Fault.{fault_page-Faulted}
use eecs.Pager.Pool.{Pool-steady}
use eecs.Pager.Valid.{Valid, Valid-memory}

pub get_elem?-Mem :
    (xs : List ℕ) (i : ℕ) → i < length xs → (v : ℕ) × (get_elem? xs i ≡ some v) × Memᴰ v xs
get_elem?-Mem [] i k = absurd (omega (arith, k))
get_elem?-Mem (x ∷ xs) zero k = (x, refl, Memᴰ.head refl)
get_elem?-Mem (x ∷ xs) (suc i) k =
    let r = get_elem?-Mem xs i (omega (arith, k)) in (r.0, r.1, Memᴰ.tail r.2)

module _ (read : List FileEvent → FileId → Option Page) (laws : Files read) (n : ℕ)
    (two : 2 ≤ n) where
  -- What a fault leaves as it is.
  abbrev pub SameTables : Pager → Pager → Type 0
  SameTables s s' =
      (s'.store ≡ s.store)
      × (s'.tables ≡ s.tables)
      × (s'.cur_table ≡ s.cur_table)
      × (s'.cur_pid ≡ s.cur_pid)

  module _ (s : Pager) (h : Valid read n s) (pid t : ℕ) (its : s.tables pid ≡ some t)
      (current : s.cur_table ≡ some t) where
    fault_at-Valid :
        (v : ℕ) (write_flag : Bool)
        → Memᴰ v (s.store t).vps
        → (after : Pager) × (status : Status) × (fault_at read (some v) write_flag s
            ≡ some (after, status))
          × Valid read n after
          × SameTables s after
    fault_at-Valid v write_flag m =
        let mapped = h.mapped pid t v its m in
        let f = fault_page-Faulted read n laws v s.memory h.pool.sound mapped two write_flag in
        (
          record s { memory = f.after },
          f.status,
          ap (fmap (with_memory s)) f.result,
          Valid-memory read n s f.after h
              (Pool-steady read n s.memory s.available_swap_blocks s.next_page h.pool v f.after
                mapped f.sound f.steady)
              f.steady.0 f.steady.1,
          (refl, refl, refl, refl),
        )

    fault_in-Valid :
        (addr : ℕ) (write_flag : Bool)
        → (after : Pager) × (status : Status) × (fault_in read (some t) addr write_flag s
            ≡ some (after, status))
          × Valid read n after
          × SameTables s after
    fault_in-Valid addr write_flag = elim (Bool-cases (leb (s.store t).cnt (vpn_of addr))) [
      | inl out ↦ (
        s,
        failure,
        ap
            (λ b.
              if b
              then some (s, failure)
              else fault_at read (get_elem? (s.store t).vps (vpn_of addr)) write_flag s)
            out,
        h,
        (refl, refl, refl, refl),
      )
      | inr inside ↦
          let less : vpn_of addr < length (s.store t).vps =
            ground (arith, inside, h.counted pid t its) in
          let g = get_elem?-Mem (s.store t).vps (vpn_of addr) less in
          let r = fault_at-Valid g.0 write_flag g.2 in
          (
            r.0,
            r.1,
            ap
                  (λ b.
                    if b
                    then some (s, failure)
                    else fault_at read (get_elem? (s.store t).vps (vpn_of addr)) write_flag s)
                  inside
                ∙ ap (λ o. fault_at read o write_flag s) g.1
                ∙ r.2,
            r.3,
            r.4,
          )
    ]

    -- A fault of the current process has no undefined behaviour.
    pub vm_fault-Valid :
        (addr : ℕ) (write_flag : Bool)
        → (after : Pager) × (status : Status) × (vm_fault read addr write_flag s
            ≡ some (after, status))
          × Valid read n after
          × SameTables s after
    unfolding vm_fault
    vm_fault-Valid addr write_flag =
        let r = fault_in-Valid addr write_flag in
        (r.0, r.1, ap (λ o. fault_in read o addr write_flag s) current ∙ r.2, r.3, r.4)
