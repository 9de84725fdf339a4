-- ===== src/Pager/Valid.antt =====
-- The invariant of the pager (Project3/my_vm_pager.cpp): the process tables, their pages and the swap
-- blocks.
pub mod Create
pub mod Fault
pub mod Destroy
pub mod Map
pub mod Grow
pub mod Names
use eecs.Base.{
  Memᴰ, ℕ, suc, ◌+◌, ◌≤◌, ◌<◌, ◌≡◌, ◌≢◌, refl, sym, ap, subst, ◌∙◌, ◌⊎◌, inl, inr, List, [], ◌∷◌,
  ◌++◌, length, Option, none, some, if◌then◌else◌, arith, true, false,
}
use mathlib.Core.List.Memᴰ
use eecs.Pager.Files.{FileId, is_swap_backed}
use eecs.Pager.Memory.{Page, FileEvent, Memory}
use eecs.Pager.Processes.{PageTable, Pager}
use eecs.Pager.Pool.{Pool}

-- How many of the virtual pages are swap-backed.
unfoldable pub swaps : (ℕ → FileId) → List ℕ → ℕ
swaps id [] = 0
swaps id (v ∷ vs) = let rest = swaps id vs in if is_swap_backed (id v) then suc rest else rest

abbrev pub Once : List ℕ → Type 0
Once [] = Unit
Once (v ∷ vs) = ¬ Memᴰ v vs × Once vs

pub record Valid (read : List FileEvent → FileId → Option Page) (n : ℕ) (s : Pager) : Type 0 where
  pub num : s.num_memory_pages ≡ n
  pub pool : Pool read n s.memory s.available_swap_blocks s.next_page
  -- The current table is that of the current process.
  pub current :
      (t : ℕ) → s.cur_table ≡ some t → (pid : ℕ) × (s.cur_pid ≡ some pid) × (s.tables pid ≡ some t)
  pub new_table : (pid t : ℕ) → s.tables pid ≡ some t → t < s.next_table
  pub one_owner : (pid pid' t : ℕ) → s.tables pid ≡ some t → s.tables pid' ≡ some t → pid ≡ pid'
  pub mapped :
      (pid t v : ℕ)
      → s.tables pid ≡ some t
      → Memᴰ v (s.store t).vps
      → Memᴰ v (s.memory.peer_map (s.memory.id v))
  pub counted : (pid t : ℕ) → s.tables pid ≡ some t → (s.store t).cnt ≡ length (s.store t).vps
  pub fits : (pid t : ℕ) → s.tables pid ≡ some t → (s.store t).cnt ≤ 256
  pub once : (pid t : ℕ) → s.tables pid ≡ some t → Once (s.store t).vps
  pub apart :
      (pid pid' t t' v : ℕ)
      → s.tables pid ≡ some t
      → s.tables pid' ≡ some t'
      → t ≢ t'
      → Memᴰ v (s.store t).vps
      → ¬ Memᴰ v (s.store t').vps
  -- As many blocks are free as can be reserved.
  pub reserve : s.num_swap_blocks ≤ length s.available_swap_blocks
  pub occupied :
      (pid t : ℕ)
      → s.tables pid ≡ some t
      → (s.store t).occupied_swap_blocks ≡ swaps s.memory.id (s.store t).vps

-- The memory changes, but the virtual pages do not.
pub Valid-memory :
    (read : List FileEvent → FileId → Option Page) (n : ℕ) (s : Pager) (memory : Memory)
    → Valid read n s
    → Pool read n memory s.available_swap_blocks s.next_page
    → memory.peer_map ≡ s.memory.peer_map
    → memory.id ≡ s.memory.id
    → Valid read n (record s { memory = memory })
Valid-memory read n s memory h pool same_peers same_id = record {
  num = h.num;
  pool = pool;
  current = h.current;
  new_table = h.new_table;
  one_owner = h.one_owner;
  mapped = λ pid t v e m.
      subst (Memᴰ v)
        (sym (ap (λ f. f (memory.id v)) same_peers ∙ ap (λ f. s.memory.peer_map (f v)) same_id))
        (h.mapped pid t v e m);
  counted = h.counted;
  fits = h.fits;
  once = h.once;
  apart = h.apart;
  reserve = h.reserve;
  occupied = λ pid t e. h.occupied pid t e ∙ ap (λ f. swaps f (s.store t).vps) (sym same_id);
}
