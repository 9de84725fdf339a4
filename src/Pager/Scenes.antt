-- ===== src/Pager/Scenes.antt =====
-- Faults on a machine of three physical pages, with the disk as a history of its accesses.
use eecs.Base.{
  Memᴰ, ◌≡◌, ◌≢◌, none, refl, ap, ◌∙◌, inl, true, false, List, [], ◌∷◌, length, ◌+◌, Option, some,
  if◌then◌else◌, arith, sym,
}
use mathlib.Core.List.Memᴰ
use eecs.Pager.Files.{
  FileId, swap_backed, same_file, less, string_less, same_file_refl, same_file_ne,
}
use eecs.Pager.Memory.{Page, FileEvent, Entry, Memory, frame, get_free_physical_page}
use eecs.Pager.Faults.{
  write_fault, bring_in, set_physical_page, load, install, narrow, mark_written, mark_used,
  set_peer, check_residence, fault_page,
}
use eecs.Pager.Processes.{
  Pager, globals, vm_init, vm_create, vm_switch, vm_fault, vm_map, vm_destroy, add_table, reserve,
  release_all, map_swap, vpn_of, offset_of, add_page, count_from,
}
use eecs.Pager.Valid.{Valid}
use eecs.Pager.Runs.{
  creates, switches, faults, maps, stores, Current, perform, Reach, start, step, Reach-Valid,
  Reach-perform,
}
use eecs.Pager.Stores.{store, store_byte}
use eecs.Pager.Reused.{vm_destroy-vm_switch}
use eecs.Pager.Sound.{Files}
use eecs.Pager.Sound.Evict.{AllSound}
use eecs.Pager.Sound.Search.{Found, get_free_physical_page-Found}
use eecs.Pager.Sound.Fault.{Faulted, fault_page-Faulted}
use eecs.Pager.Sound.Mapping.{with_page, map_swap-Sound}
use eecs.Pager.Sound.Start.{vm_init-Sound}

-- A block reads as what has been written to it last, and at first as zeros.
abbrev last_written : List FileEvent → FileId → Option Page
last_written [] i = some (λ j. 0)
last_written (FileEvent.file_read k ∷ log) i = last_written log i
last_written (FileEvent.file_write k pg ∷ log) i =
    let before = last_written log i in if same_file k i then some pg else before

last_written-Files : Files last_written
last_written-Files = record {
  written = λ log i pg a. ap (λ b. if b then some pg else last_written log i) (same_file_refl i);
  kept_write = λ log i j pg pg' ne e.
      ap (λ b. if b then some pg' else last_written log i) (same_file_ne j i (λ k. ne (sym k))) ∙ e;
  kept_read = λ log i j pg e. e;
}

abbrev any_entry : Entry
any_entry = record { ppage = 7; read_enable = true; write_enable = true }

abbrev blank : Memory
blank = (vm_init 3 4 (globals (λ p j. p) (λ v. any_entry))).memory

blank-Sound : AllSound last_written 3 blank
blank-Sound = vm_init-Sound last_written 3 4 (λ p j. p) (λ v. any_entry) (omega arith)

-- Virtual page 0 is backed by swap block 2.
abbrev one_page : Memory
one_page =
    with_page 0 (swap_backed 2) (record { ppage = 0; read_enable = true; write_enable = false })
      (record blank {
        peer_in_phys = λ i. if same_file (swap_backed 2) i then some 0 else blank.peer_in_phys i;
      })

one_page-Sound : AllSound last_written 3 one_page
unfolding vm_init
one_page-Sound =
    map_swap-Sound last_written 3 0 2 blank blank-Sound (λ j w m. absurd (Memᴰ.not-nil m)) refl
      (inl refl)

one_page-mapped : Memᴰ 0 (one_page.peer_map (one_page.id 0))
unfolding vm_init same_file
one_page-mapped = Memᴰ.head refl

get_free_physical_page-Found_example :
    Found last_written last_written-Files 3 one_page
      (get_free_physical_page (length one_page.clock_queue + 1) one_page)
get_free_physical_page-Found_example =
    get_free_physical_page-Found last_written last_written-Files 3 one_page one_page-Sound
      (omega arith)

fault_page-Faulted_example :
    Faulted last_written 3 0 true one_page (fault_page last_written 0 true one_page)
fault_page-Faulted_example =
    fault_page-Faulted last_written 3 last_written-Files 0 one_page one_page-Sound one_page-mapped
      (omega arith) true

-- A process maps a page, writes to it and ends.
abbrev booted : Pager
booted = vm_init 3 4 (globals (λ p j. p) (λ v. any_entry))

abbrev or_booted : Option Pager → Pager
or_booted none = booted
or_booted (some s) = s

abbrev created : Pager
created = or_booted (perform last_written (creates 0 1) booted)

abbrev running : Pager
running = or_booted (perform last_written (switches 1) created)

has_table : ¬ (created.tables 1 ≡ none)
unfolding perform vm_create vm_init add_table reserve
has_table e = cc

goes_on : perform last_written (switches 1) created ≡ some running
unfolding perform vm_create vm_switch vm_init add_table reserve
goes_on = refl

runs_now : Current running
unfolding perform vm_create vm_switch vm_init add_table reserve
runs_now = (1, refl, λ e. cc)

begins : perform last_written (creates 0 1) booted ≡ some created
unfolding perform
begins = refl

no_table : (booted.tables 1 ≡ none) × (booted.cur_pid ≢ some 1)
unfolding vm_init
no_table = (refl, λ e. cc)

running-Reach : Reach last_written 3 running
running-Reach =
    step (switches 1) running
      (step (creates 0 1) created (start 4 (λ p j. p) (λ v. any_entry)) no_table begins) has_table
      goes_on

abbrev with_page_mapped : Pager
with_page_mapped = or_booted (perform last_written (maps none 0) running)

abbrev written : Pager
written = or_booted (perform last_written (faults 25769803779 true) with_page_mapped)

abbrev stored : Pager
stored = or_booted (perform last_written (stores 25769803779 65) written)

-- The first physical page has the data of the process.
page_one : (written.memory.entry 0).ppage ≡ 1
unfolding perform vm_create vm_switch vm_init add_table reserve vm_map map_swap vm_fault vpn_of
    fault_page write_fault bring_in get_free_physical_page set_physical_page load install narrow
    mark_written mark_used set_peer add_page check_residence count_from same_file less string_less
page_one = refl

byte_stored : stored.memory.physmem 1 3 ≡ 65
unfolding perform vm_create vm_switch vm_init add_table reserve vm_map map_swap vm_fault vpn_of
    fault_page write_fault bring_in get_free_physical_page set_physical_page load install narrow
    mark_written mark_used set_peer add_page check_residence count_from same_file less string_less
    store store_byte offset_of frame
byte_stored = refl

Reach-Valid_example : Valid last_written 3 running
Reach-Valid_example =
    Reach-Valid last_written last_written-Files 3 (omega arith) running (omega arith) running-Reach

Reach-perform_example : (after : Pager) × (perform last_written (maps none 0) running ≡ some after)
Reach-perform_example =
    Reach-perform last_written last_written-Files 3 (omega arith) running (maps none 0)
      (omega arith) running-Reach runs_now

abbrev ended : Pager
ended = or_booted (vm_destroy running)

is_running : running.cur_pid ≡ some 1
unfolding perform vm_create vm_switch vm_init add_table reserve
is_running = refl

ends : vm_destroy running ≡ some ended
unfolding perform vm_create vm_switch vm_init add_table reserve vm_destroy release_all
ends = refl

vm_destroy-vm_switch_example :
    (vm_switch 1 (vm_create 0 1 ended).0 ≡ some (vm_create 0 1 ended).0)
    × (vm_fault last_written 25769803776 false (vm_create 0 1 ended).0 ≡ none)
vm_destroy-vm_switch_example =
    vm_destroy-vm_switch last_written 1 0 25769803776 false running ended is_running ends
