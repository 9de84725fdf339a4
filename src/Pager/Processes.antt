-- ===== src/Pager/Processes.antt =====
-- The calls of the pager, of Project3/my_vm_pager.cpp.
-- A result `none` stands for undefined behaviour: a null `cur_table`, `front` of an empty queue.
use eecs.Base.{
  ℕ, zero, suc, ◌+◌, ◌-◌, ◌*◌, ◌/◌, ◌%◌, ◌^◌, Bool, true, false, not, ◌&&◌, List, [], ◌∷◌, ◌++◌,
  Option, none, some, ◌==◌, ltb, leb, if◌then◌else◌, get_elem?,
}
use eecs.Pager.Files.{FileId, swap_backed, file_backed, is_swap_backed, assign}
use eecs.Pager.Memory.{Page, FileEvent, PhysicalPage, Entry, Memory, vm_pagesize, u32, put}
use eecs.Pager.Faults.{Status, success, failure, check_residence, narrow, fmap, fault_page}

-- A page table; its `ptbr` is the list of the entries of `vps`, and so is the base register.
pub record PageTable : Type 0 where
  pub vps : List ℕ
  pub cnt : ℕ
  pub occupied_swap_blocks : ℕ

-- The whole state. A `shared_ptr<page_table>` is an address of `store`; the `cur_pid` -1 is `none`.
-- `next_page` and `next_table` are not used yet by a virtual page or a page table.
pub record Pager : Type 0 where
  pub memory : Memory
  pub tables : ℕ → Option ℕ
  pub store : ℕ → PageTable
  pub cur_table : Option ℕ
  pub cur_pid : Option ℕ
  pub available_swap_blocks : List ℕ
  pub num_memory_pages : ℕ
  pub num_swap_blocks : ℕ
  pub next_page : ℕ
  pub next_table : ℕ

abbrev pub vm_arena_baseaddr : ℕ
vm_arena_baseaddr = 25769803776

abbrev pub max_page_num : ℕ
max_page_num = 16777216 / vm_pagesize

-- The numbers from one on, `n` of them.
unfoldable pub count_from : ℕ → ℕ → List ℕ
count_from i zero = []
count_from i (suc n) = i ∷ count_from (suc i) n

abbrev pub new_table : PageTable
new_table = record { vps = []; cnt = 0; occupied_swap_blocks = 0 }

-- The state of the program's globals when it starts, and `physmem` and `entry` as they happen to be.
abbrev pub globals : (ℕ → Page) → (ℕ → Entry) → Pager
globals physmem entry = record {
  memory = record {
    physical_table = λ p. record { dirty = false; referenced = false; id = swap_backed 0 };
    available_physical_pages = [];
    clock_queue = [];
    peer_in_phys = λ i. none;
    peer_map = λ i. [];
    id = λ v. swap_backed 0;
    entry = entry;
    physmem = physmem;
    log = [];
  };
  tables = λ pid. none;
  store = λ t. new_table;
  cur_table = none;
  cur_pid = none;
  available_swap_blocks = [];
  num_memory_pages = 0;
  num_swap_blocks = 0;
  next_page = 0;
  next_table = 0;
}

unfoldable pub vm_init : ℕ → ℕ → Pager → Pager
unfolding count_from
vm_init memory_pages swap_blocks s = record s {
  num_memory_pages = memory_pages;
  num_swap_blocks = swap_blocks;
  memory = record s.memory {
    physmem = put s.memory.physmem 0 (λ j. 0);
    available_physical_pages = s.memory.available_physical_pages ++ count_from 1 (memory_pages - 1);
  };
  available_swap_blocks = s.available_swap_blocks ++ count_from 0 swap_blocks;
}

-- The child gets a new, empty table.
unfoldable pub add_table : ℕ → Pager → Pager
add_table child_pid s = record s {
  tables = put s.tables child_pid (some s.next_table);
  store = put s.store s.next_table new_table;
  next_table = suc s.next_table;
}

-- The swap blocks of the parent are reserved once more; `none` if too few are left.
unfoldable pub reserve : Option ℕ → Pager → Option Pager
reserve none s = some s
reserve (some parent) s =
    let n = (s.store parent).occupied_swap_blocks in
    if ltb s.num_swap_blocks n
    then none
    else some (record s { num_swap_blocks = s.num_swap_blocks - n })

abbrev pub or_fail : Pager → (Pager → Pager) → Option Pager → Pager × Status
or_fail s f none = (s, failure)
or_fail s f (some s') = (f s', success)

unfoldable pub vm_create : ℕ → ℕ → Pager → Pager × Status
unfolding add_table reserve
vm_create parent_pid child_pid s = or_fail s (add_table child_pid) (reserve (s.tables parent_pid) s)

abbrev pub same_pid : Option ℕ → ℕ → Bool
same_pid none pid = false
same_pid (some p) pid = p == pid

-- A process without a table has a null pointer, which is dereferenced.
abbrev pub set_table : ℕ → Option ℕ → Pager → Option Pager
set_table pid none s = none
set_table pid (some t) s = some (record s { cur_table = some t; cur_pid = some pid })

unfoldable pub vm_switch : ℕ → Pager → Option Pager
vm_switch pid s = if same_pid s.cur_pid pid then some s else set_table pid (s.tables pid) s

-- The first occurrence goes.
unfoldable pub remove_first : ℕ → List ℕ → List ℕ
remove_first x [] = []
remove_first x (y ∷ ys) = let rest = remove_first x ys in if y == x then ys else y ∷ rest

-- The physical page of a swap-backed page becomes available.
unfoldable pub free_page : ℕ → Memory → Memory
unfolding remove_first
free_page v s =
    let p = (s.entry v).ppage in
    record s {
      physical_table = put s.physical_table p (record (s.physical_table p) { dirty = false });
      available_physical_pages = s.available_physical_pages ++ p ∷ [];
      clock_queue = remove_first p s.clock_queue;
      peer_in_phys = assign s.peer_in_phys (s.id v) none;
    }

-- The virtual page leaves `peer_map`, and its physical page the memory if no other can have it.
unfoldable pub release_page : ℕ → Memory → Memory
unfolding free_page check_residence remove_first
release_page v s =
    let s' = record s {
      peer_map = assign s.peer_map (s.id v) (remove_first v (s.peer_map (s.id v)));
    } in
    if check_residence v s' && not ((s.entry v).ppage == 0) && is_swap_backed (s.id v)
    then free_page v s'
    else s'

-- Its swap block, to be pushed to the available ones.
abbrev pub block_of : FileId → List ℕ
block_of (swap_backed block) = block ∷ []
block_of (file_backed filename block) = []

unfoldable pub release_all : List ℕ → Pager → Pager
unfolding release_page
release_all [] s = s
release_all (vp ∷ vps) s = release_all vps (record s {
  memory = release_page vp s.memory;
  available_swap_blocks = s.available_swap_blocks ++ block_of (s.memory.id vp);
})

abbrev pub erase_pid : Option ℕ → (ℕ → Option ℕ) → ℕ → Option ℕ
erase_pid none tables = tables
erase_pid (some pid) tables = put tables pid none

abbrev pub destroy_table : ℕ → Pager → Pager
destroy_table t s = record s {
  num_swap_blocks = u32 (s.num_swap_blocks + (s.store t).occupied_swap_blocks);
  tables = erase_pid s.cur_pid s.tables;
  cur_table = none;
}

abbrev pub destroy_current : Option ℕ → Pager → Option Pager
destroy_current none s = none
destroy_current (some t) s = some (destroy_table t (release_all ((s.store t).vps) s))

unfoldable pub vm_destroy : Pager → Option Pager
unfolding release_all
vm_destroy s = destroy_current s.cur_table s

-- Where an address lies in the arena, by the arithmetic of uintptr_t and of unsigned int.
unfoldable pub vpn_of : ℕ → ℕ
vpn_of addr = u32 ((addr + 2 ^ 64 - vm_arena_baseaddr) % 2 ^ 64 / vm_pagesize)

unfoldable pub offset_of : ℕ → ℕ
unfolding vpn_of
offset_of addr =
    u32
      (((addr + 2 ^ 64 - vm_arena_baseaddr) % 2 ^ 64 + 2 ^ 64 - u32 (vpn_of addr * 65536)) % 2 ^ 64)

abbrev pub with_memory : Pager → Memory × Status → Pager × Status
with_memory s (memory, r) = (record s { memory = memory }, r)

-- A new virtual page behind the others of the table, whose entry and `id` are given.
unfoldable pub add_page : ℕ → FileId → Entry → Pager → Pager
add_page t i e s =
    let v = s.next_page in
    let table = s.store t in
    record s {
      memory = record s.memory {
        id = put s.memory.id v i;
        entry = put s.memory.entry v e;
        peer_map = assign s.memory.peer_map i (s.memory.peer_map i ++ v ∷ []);
      };
      store = put s.store t (record table { vps = table.vps ++ v ∷ []; cnt = suc table.cnt });
      next_page = suc v;
    }

abbrev pub page_address : ℕ → ℕ
page_address cnt = (vm_arena_baseaddr + u32 (cnt * vm_pagesize)) % 2 ^ 64

-- A swap-backed page starts at the zero page, physical page 0, and may be read.
abbrev pub take_block : ℕ → List ℕ → Pager → Option (Pager × ℕ)
take_block t [] s = none
take_block t (block ∷ blocks) s =
    let i = swap_backed block in
    let s' = add_page t i (record { ppage = 0; read_enable = true; write_enable = false }) s in
    let table = s'.store t in
    some (
      record s' {
        available_swap_blocks = blocks;
        num_swap_blocks = s.num_swap_blocks - 1;
        store =
            put s'.store t
              (record table { occupied_swap_blocks = u32 (table.occupied_swap_blocks + 1) });
        memory = record s'.memory { peer_in_phys = assign s.memory.peer_in_phys i (some 0) };
      },
      page_address ((s.store t).cnt),
    )

-- `nullptr` is the address 0.
unfoldable pub map_swap : ℕ → Pager → Option (Pager × ℕ)
unfolding add_page
map_swap t s =
    if s.num_swap_blocks == 0 then some (s, 0) else take_block t s.available_swap_blocks s

-- The entry of a new file-backed page, whose file may be in memory already.
unfoldable pub file_entry : Option ℕ → (ℕ → PhysicalPage) → ℕ → Entry
unfolding narrow
file_entry none table num_memory_pages = record {
  ppage = narrow num_memory_pages;
  read_enable = false;
  write_enable = false;
}
file_entry (some p) table num_memory_pages = record {
  ppage = narrow p;
  read_enable = (table p).referenced;
  write_enable = (table p).referenced && (table p).dirty;
}

unfoldable pub map_file : ℕ → List ℕ → ℕ → Pager → Pager
unfolding file_entry add_page
map_file t filename block s =
    let i = file_backed filename block in
    add_page t i (file_entry (s.memory.peer_in_phys i) s.memory.physical_table s.num_memory_pages) s

-- The byte at `start[ppage * VM_PAGESIZE + offset]`, whose index is computed in 32 bits.
unfoldable pub byte_at : ℕ → ℕ → Memory → ℕ
unfolding offset_of
byte_at v addr s =
    let index = u32 ((s.entry v).ppage * vm_pagesize + offset_of addr) in
    s.physmem (index / vm_pagesize) (index % vm_pagesize)

-- One byte more than the valid zone has.
unfoldable pub name_fuel : ℕ → Pager → ℕ
name_fuel t s = (s.store t).cnt * vm_pagesize + 1

abbrev pub map_named : ℕ → ℕ → ℕ → Pager × Option (List ℕ) → Pager × ℕ
map_named t block new_addr (s, none) = (s, 0)
map_named t block new_addr (s, some name) = (map_file t name block s, new_addr)

-- `file_read` of the infrastructure: the page it reads after some accesses, `none` for -1.
module _ (read : List FileEvent → FileId → Option Page) where
  abbrev pub fault_at : Option ℕ → Bool → Pager → Option (Pager × Status)
  fault_at none write_flag s = none
  fault_at (some v) write_flag s = fmap (with_memory s) (fault_page read v write_flag s.memory)

  abbrev pub fault_in : Option ℕ → ℕ → Bool → Pager → Option (Pager × Status)
  fault_in none addr write_flag s = none
  fault_in (some t) addr write_flag s =
      if leb ((s.store t).cnt) (vpn_of addr)
      then some (s, failure)
      else fault_at (get_elem? ((s.store t).vps) (vpn_of addr)) write_flag s

  unfoldable pub vm_fault : ℕ → Bool → Pager → Option (Pager × Status)
  unfolding vpn_of fault_page
  vm_fault addr write_flag s = fault_in s.cur_table addr write_flag s

  -- The page of a byte of the name can be read after `vm_fault`, if it could not before.
  unfoldable pub readable : ℕ → ℕ → Pager → Option (Pager × Status)
  unfolding vm_fault
  readable v addr s =
      if not ((s.memory.entry v).read_enable) then vm_fault addr false s else some (s, success)

  -- The loop on the name, at most `fuel` bytes; no name is `nullptr`.
  unfoldable pub read_name : ℕ → ℕ → ℕ → List ℕ → Pager → Option (Pager × Option (List ℕ))
  unfolding readable byte_at vpn_of
  read_name zero t addr name s = none
  read_name (suc fuel) t addr name s = elim (leb ((s.store t).cnt) (vpn_of addr)) [
    | true ↦ some (s, none)
    | false ↦ elim (get_elem? ((s.store t).vps) (vpn_of addr)) [
      | none ↦ none
      | some v ↦ elim (readable v addr s) [
        | none ↦ none
        | some (s', failure) ↦ some (s', none)
        | some (s', success) ↦
            let c = byte_at v addr s'.memory in
            elim (c == 0) [
              | true ↦ some (s', some (name ++ c ∷ []))
              | false ↦ read_name fuel t (suc addr) (name ++ c ∷ []) s'
            ]
      ]
    ]
  ]

  abbrev pub map_in : ℕ → Option ℕ → ℕ → Pager → Option (Pager × ℕ)
  map_in t none block s = map_swap t s
  map_in t (some filename) block s =
      fmap (map_named t block (page_address ((s.store t).cnt)))
        (read_name (name_fuel t s) t filename [] s)

  abbrev pub map_current : Option ℕ → Option ℕ → ℕ → Pager → Option (Pager × ℕ)
  map_current none filename block s = none
  map_current (some t) filename block s =
      if leb max_page_num ((s.store t).cnt) then some (s, 0) else map_in t filename block s

  -- `filename` is an address, or `none` for a null pointer.
  unfoldable pub vm_map : Option ℕ → ℕ → Pager → Option (Pager × ℕ)
  unfolding read_name map_file map_swap name_fuel
  vm_map filename block s = map_current s.cur_table filename block s
