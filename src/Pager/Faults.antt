-- ===== src/Pager/Faults.antt =====
-- How a page comes into memory: set_physical_page and set_peer of Project3/my_utils.cpp,
-- check_residence of my_utils.h, and what vm_fault of my_vm_pager.cpp does with the page it has found.
-- A result `none` stands for undefined behaviour: `front` of an empty queue.
use eecs.Base.{
  ℕ, ◌+◌, ◌%◌, ◌^◌, Bool, true, false, not, ◌||◌, List, [], ◌∷◌, ◌++◌, length, Option, none, some,
  ◌==◌, if◌then◌else◌,
}
use eecs.Pager.Files.{FileId, is_swap_backed, assign}
use eecs.Pager.Memory.{Page, FileEvent, Entry, Memory, frame, put, get_free_physical_page}

-- The values 0 and -1 of an int result.
pub data Status : Type 0 where
  success failure : Status

abbrev pub is_some {ℓ} : {A : Type ℓ} → Option A → Bool
is_some none = false
is_some (some a) = true

unfoldable pub check_residence : ℕ → Memory → Bool
check_residence v s = is_some (s.peer_in_phys (s.id v))

-- A page number in the 20 bits of an entry.
unfoldable pub narrow : ℕ → ℕ
narrow ppage = ppage % 2 ^ 20

unfoldable pub set_peer : List ℕ → ℕ → (ℕ → Entry) → ℕ → Entry
set_peer [] cur_page entry = entry
set_peer (vp ∷ peer) cur_page entry = set_peer peer cur_page (
    put entry vp (record {
      ppage = (entry cur_page).ppage;
      read_enable = true;
      write_enable = (entry cur_page).write_enable;
    }))

-- What `file_read` has put at the physical page, if it has succeeded. For the swap file its result is
-- not looked at.
unfoldable pub read_result : ℕ → FileId → Option Page → Memory → Memory × Status
read_result ppage i (some page) s =
    (record s { physmem = put s.physmem (frame ppage) page }, success)
read_result ppage i none s = (s, if is_swap_backed i then success else failure)

-- The free physical page becomes that of the virtual page.
unfoldable pub install : ℕ → List ℕ → ℕ → Memory → Memory
unfolding narrow
install ppage free v s = record s {
  physical_table = put s.physical_table ppage (record (s.physical_table ppage) { id = s.id v });
  available_physical_pages = free;
  clock_queue = s.clock_queue ++ ppage ∷ [];
  peer_in_phys = assign s.peer_in_phys (s.id v) (some ppage);
  entry = put s.entry v (record (s.entry v) { ppage = narrow ppage });
}

abbrev pub on_success : (Memory → Memory) → Memory × Status → Memory × Status
on_success f (s, success) = (f s, success)
on_success f (s, failure) = (s, failure)

-- `physical_table[...].dirty = true`, and the entry lets the process write.
unfoldable pub mark_written : ℕ → Memory → Memory
mark_written v s =
    let p = (s.entry v).ppage in
    record s {
      physical_table = put s.physical_table p (record (s.physical_table p) { dirty = true });
      entry = put s.entry v (record (s.entry v) { write_enable = true });
    }

unfoldable pub let_write : ℕ → Memory → Memory
let_write v s = record s { entry = put s.entry v (record (s.entry v) { write_enable = true }) }

unfoldable pub mark_used : ℕ → Memory → Memory
unfolding set_peer
mark_used v s =
    let p = (s.entry v).ppage in
    record s {
      physical_table = put s.physical_table p (record (s.physical_table p) { referenced = true });
      entry =
          set_peer (s.peer_map (s.id v)) v
            (put s.entry v (record (s.entry v) { read_enable = true }));
    }

abbrev pub and_then {ℓ κ} : {A : Type ℓ} {B : Type κ} → Option A → (A → Option B) → Option B
and_then none k = none
and_then (some a) k = k a

abbrev pub fmap {ℓ κ} : {A : Type ℓ} {B : Type κ} → (A → B) → Option A → Option B
fmap f none = none
fmap f (some a) = some (f a)

-- `file_read` of the infrastructure: the page it reads after some accesses, `none` for -1.
module _ (read : List FileEvent → FileId → Option Page) where
  -- The page's data goes to the physical page `ppage`.
  unfoldable pub load : ℕ → ℕ → Memory → Memory × Status
  unfolding check_residence read_result
  load ppage v s =
      if check_residence v s
      then (
        record s { physmem = put s.physmem (frame ppage) (s.physmem (frame ((s.entry v).ppage))) },
        success,
      )
      else read_result ppage (s.id v) (read s.log (s.id v))
          (record s { log = FileEvent.file_read (s.id v) ∷ s.log })

  abbrev pub load_first : List ℕ → ℕ → Memory → Option (Memory × Status)
  load_first [] v s = none
  load_first (ppage ∷ free) v s = some (on_success (install ppage free v) (load ppage v s))

  unfoldable pub set_physical_page : ℕ → Memory → Option (Memory × Status)
  unfolding load install
  set_physical_page v s = load_first s.available_physical_pages v s

  -- The search for a page has a round more than the queue of the clock is long.
  unfoldable pub bring_in : ℕ → Memory → Option (Memory × Status)
  unfolding get_free_physical_page set_physical_page
  bring_in v s =
      and_then (get_free_physical_page (length s.clock_queue + 1) s) (set_physical_page v)

  unfoldable pub write_fault : ℕ → Memory → Option (Memory × Status)
  unfolding bring_in mark_written check_residence
  write_fault v s =
      if not (check_residence v s) || (s.entry v).ppage == 0
      then fmap (on_success (mark_written v)) (bring_in v s)
      else some (mark_written v s, success)

  unfoldable pub read_fault : ℕ → Memory → Option (Memory × Status)
  unfolding bring_in let_write check_residence
  read_fault v s =
      if not (check_residence v s)
      then bring_in v s
      else some (if (s.physical_table ((s.entry v).ppage)).dirty then let_write v s else s, success)

  -- `vm_fault`, from the virtual page on.
  unfoldable pub fault_page : ℕ → Bool → Memory → Option (Memory × Status)
  unfolding write_fault read_fault mark_used
  fault_page v write_flag s =
      fmap (on_success (mark_used v)) (if write_flag then write_fault v s else read_fault v s)
