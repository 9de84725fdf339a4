-- ===== src/Pager/Memory.antt =====
-- The physical memory of the pager, and the clock: get_free_physical_page of Project3/my_utils.cpp.
use eecs.Base.{
  ℕ, zero, suc, ◌*◌, ◌/◌, ◌%◌, ◌^◌, ◌<◌, ◌≡◌, arith, Bool, true, false, List, [], ◌∷◌, ◌++◌, Option,
  none, some, ◌==◌, if◌then◌else◌,
}
use eecs.Pager.Files.{FileId, assign}

-- The bytes of a page.
abbrev pub Page : Type 0
Page = ℕ → ℕ

-- An access to a file, by file_read and file_write of the infrastructure.
pub data FileEvent : Type 0 where
  file_read : FileId → FileEvent
  file_write : FileId → Page → FileEvent

pub record PhysicalPage : Type 0 where
  pub dirty : Bool
  pub referenced : Bool
  pub id : FileId

pub record Entry : Type 0 where
  pub ppage : ℕ
  pub read_enable : Bool
  pub write_enable : Bool

-- The state of the pager but for the processes. A virtual page (`virtual_page*`) is a number, `id` its
-- `_id` and `entry` its page table entry; `physmem` is the memory itself, page by page, and `log` has
-- the accesses to files, newest first.
pub record Memory : Type 0 where
  pub physical_table : ℕ → PhysicalPage
  pub available_physical_pages : List ℕ
  pub clock_queue : List ℕ
  pub peer_in_phys : FileId → Option ℕ
  pub peer_map : FileId → List ℕ
  pub id : ℕ → FileId
  pub entry : ℕ → Entry
  pub physmem : ℕ → Page
  pub log : List FileEvent

abbrev pub vm_pagesize : ℕ
vm_pagesize = 65536

abbrev pub u32 : ℕ → ℕ
u32 x = x % 2 ^ 32

-- The page of memory at `start + ppage * VM_PAGESIZE`, which is computed in 32 bits.
unfoldable pub frame : ℕ → ℕ
frame ppage = u32 (ppage * vm_pagesize) / vm_pagesize

-- The product does not wrap for the first 2^16 pages.
pub frame_lem : (p : ℕ) → p < 2 ^ 16 → frame p ≡ p
unfolding frame
frame_lem p h = omega arith

abbrev pub put {ℓ} : {A : Type ℓ} → (ℕ → A) → ℕ → A → ℕ → A
put f k v j = if j == k then v else f j

unfoldable pub disable_all : List ℕ → (ℕ → Entry) → ℕ → Entry
disable_all [] entry = entry
disable_all (v ∷ vs) entry =
    disable_all vs (put entry v (record (entry v) { read_enable = false; write_enable = false }))

-- The page that is not referenced is written back if it is dirty, and becomes available.
unfoldable pub evict : ℕ → Memory → Memory
evict ppage s =
    let page = s.physical_table ppage in
    record s {
      physical_table = put s.physical_table ppage (record page { dirty = false });
      available_physical_pages = s.available_physical_pages ++ ppage ∷ [];
      peer_in_phys = assign s.peer_in_phys page.id none;
      log = if page.dirty then file_write page.id (s.physmem (frame ppage)) ∷ s.log else s.log;
    }

-- A referenced page gets a second chance, behind the others.
unfoldable pub second_chance : ℕ → Memory → Memory
unfolding disable_all
second_chance ppage s =
    let page = s.physical_table ppage in
    record s {
      physical_table = put s.physical_table ppage (record page { referenced = false });
      clock_queue = s.clock_queue ++ ppage ∷ [];
      entry = disable_all (s.peer_map page.id) s.entry;
    }

abbrev pub is_nil {ℓ} : {A : Type ℓ} → List A → Bool
is_nil [] = true
is_nil (x ∷ xs) = false

-- The loop of `get_free_physical_page`, when no page is available; `none` means that the fuel did not
-- last or that there is no page in the clock.
unfoldable pub clock_loop : ℕ → List ℕ → Memory → Option Memory
unfolding evict second_chance
clock_loop zero queue s = none
clock_loop (suc fuel) [] s = none
clock_loop (suc fuel) (ppage ∷ rest) s = elim ((s.physical_table ppage).referenced) [
  | false ↦ some (evict ppage (record s { clock_queue = rest }))
  | true ↦
      clock_loop fuel (rest ++ ppage ∷ []) (second_chance ppage (record s { clock_queue = rest }))
]

unfoldable pub get_free_physical_page : ℕ → Memory → Option Memory
unfolding clock_loop
get_free_physical_page fuel s =
    if is_nil s.available_physical_pages then clock_loop fuel s.clock_queue s else some s
