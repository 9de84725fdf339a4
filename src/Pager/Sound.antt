-- ===== src/Pager/Sound.antt =====
-- The invariant of the pager's memory between two faults, and the data of a page, in memory or in its
-- file.
pub mod Evict
pub mod Search
pub mod Install
pub mod Marks
pub mod Load
pub mod Fault
pub mod Mapping
pub mod Release
pub mod Start
use eecs.Base.{
  Memᴰ, ℕ, ◌+◌, ◌≤◌, ◌<◌, ◌^◌, ◌≡◌, ◌≢◌, ◌⊎◌, Bool, true, false, List, [], ◌∷◌, Option, none, some,
}
use eecs.Pager.Files.{FileId, is_swap_backed}
use eecs.Pager.Memory.{Page, FileEvent, Memory}
use eecs.Pager.Frames.{count, Frames}

-- `file_read` of the infrastructure: the page it reads after some accesses, `none` for -1.
module _ (read : List FileEvent → FileId → Option Page) where
  -- A block that can be written: of the swap file, or one that can be read.
  abbrev pub Accessible : List FileEvent → FileId → Type 0
  Accessible log i = (is_swap_backed i ≡ true) ⊎ ((pg : Page) × (read log i ≡ some pg))

  -- What vm_pager.h says of files: no other process accesses them, and a block that has been accessed
  -- remains accessible. Different names are taken for different files.
  pub record Files : Type 0 where
    pub written :
        (log : List FileEvent) (i : FileId) (pg : Page)
        → Accessible log i
        → read (FileEvent.file_write i pg ∷ log) i ≡ some pg
    pub kept_write :
        (log : List FileEvent) (i j : FileId) (pg pg' : Page)
        → i ≢ j
        → read log i ≡ some pg
        → read (FileEvent.file_write j pg' ∷ log) i ≡ some pg
    pub kept_read :
        (log : List FileEvent) (i j : FileId) (pg : Page)
        → read log i ≡ some pg
        → read (FileEvent.file_read j ∷ log) i ≡ some pg

  abbrev pub page_at : Memory → FileId → Option ℕ → Option Page
  page_at s i none = read s.log i
  page_at s i (some p) = some (s.physmem p)

  -- The data of a block: in memory, if a physical page has it, and otherwise in the file.
  abbrev pub content : Memory → FileId → Option Page
  content s i = page_at s i (s.peer_in_phys i)

  -- No data is lost.
  abbrev pub Kept : Memory → Memory → Type 0
  Kept s s' = (i : FileId) (pg : Page) → content s i ≡ some pg → content s' i ≡ some pg

  -- `n` is the number of physical pages. `Open` and `Dirty` say of which blocks the entries, and of which
  -- physical pages the file, may not be as they should.
  pub record Sound (n : ℕ) (Open : FileId → Type 0) (Dirty : ℕ → Type 0) (s : Memory) : Type 0 where
    -- So many pages have 2^32 bytes at most.
    pub small : n ≤ 2 ^ 16
    pub frames : Frames n s.available_physical_pages s.clock_queue
    -- A page in the clock has the block of its `id`.
    pub holds :
        (p : ℕ) → 1 ≤ count p s.clock_queue → s.peer_in_phys ((s.physical_table p).id) ≡ some p
    -- A block in memory is at the zero page or in the clock.
    pub back :
        (i : FileId) (p : ℕ)
        → s.peer_in_phys i ≡ some p
        → (p ≡ 0) ⊎ ((1 ≤ count p s.clock_queue) × ((s.physical_table p).id ≡ i))
    pub member : (i : FileId) (v : ℕ) → Memᴰ v (s.peer_map i) → s.id v ≡ i
    -- The entries of a block in memory lead to it.
    pub linked :
        (i : FileId) (v p : ℕ)
        → ¬ Open i
        → Memᴰ v (s.peer_map i)
        → s.peer_in_phys i ≡ some p
        → (s.entry v).ppage ≡ p
    -- A process can read only pages in memory that count as referenced, and the zero page.
    pub readable :
        (i : FileId) (v : ℕ)
        → ¬ Open i
        → Memᴰ v (s.peer_map i)
        → (s.entry v).read_enable ≡ true
        → (p : ℕ) × (s.peer_in_phys i ≡ some p)
          × ((p ≡ 0) ⊎ ((s.physical_table p).referenced ≡ true))
    -- It can write only pages in memory that count as dirty and referenced.
    pub writable :
        (i : FileId) (v : ℕ)
        → ¬ Open i
        → Memᴰ v (s.peer_map i)
        → (s.entry v).write_enable ≡ true
        → (p : ℕ) × (s.peer_in_phys i ≡ some p)
          × ((s.physical_table p).dirty ≡ true)
          × ((s.physical_table p).referenced ≡ true)
    -- The file of a page that is not dirty has its data.
    pub clean :
        (p : ℕ)
        → ¬ Dirty p
        → 1 ≤ count p s.clock_queue
        → (s.physical_table p).dirty ≡ false
        → read s.log ((s.physical_table p).id) ≡ some (s.physmem p)
    pub accessible :
        (p : ℕ) → 1 ≤ count p s.clock_queue → Accessible s.log ((s.physical_table p).id)
    -- A swap-backed page that is not in memory has been written to its block.
    pub stored :
        (i : FileId) (v : ℕ)
        → Memᴰ v (s.peer_map i)
        → is_swap_backed i ≡ true
        → s.peer_in_phys i ≡ none
        → (pg : Page) × (read s.log i ≡ some pg)
    -- The zero page has zeros, is of swap-backed pages only, and no process writes to it.
    pub zero_page : (j : ℕ) → s.physmem 0 j ≡ 0
    pub zero_swap : (i : FileId) → s.peer_in_phys i ≡ some 0 → is_swap_backed i ≡ true
    pub zero_clean : (s.physical_table 0).dirty ≡ false

-- Nothing is open.
abbrev pub Nowhere {ℓ} : {A : Type ℓ} → A → Type 0
Nowhere a = ⊥
