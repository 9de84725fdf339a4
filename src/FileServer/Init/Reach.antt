-- ===== src/FileServer/Init/Reach.antt =====
-- What the directory tree of a disk uses.
use eecs.Base.{Memᴰ, ℕ, ◌≡◌, ◌≢◌, List, [], ◌∷◌, ◌++◌, ◌⊎◌, ◌==◌, if◌then◌else◌}
use eecs.FileServer.Layout.{Inode, DirEntry, decode_inode, decode_entries}
use eecs.FileServer.State.{Disk}
use eecs.FileServer.Directory.{used_blocks, dir_type, file_type}

-- The directory block `b` has an entry in use for that inode block.
pub record Lists (disk : Disk) (b inode_block : ℕ) : Type 0 where
  pub entry : DirEntry
  pub member : Memᴰ entry (decode_entries (disk b))
  pub target : entry.inode_block ≡ inode_block
  pub in_use : inode_block ≢ 0

-- The inode in block `i` is of that type and has block `x`.
abbrev pub HasBlock : Disk → ℕ → ℕ → ℕ → Type 0
HasBlock disk type i x =
    ((decode_inode (disk i)).type ≡ type) × Memᴰ x (used_blocks (decode_inode (disk i)))

-- Block `x` is used by the tree below the directory block `b`.
pub data Uses (disk : Disk) : ℕ → ℕ → Type 0 where
  itself : {b : ℕ} → Uses disk b b
  its_inode : {b i : ℕ} → Lists disk b i → Uses disk b i
  contents : {b i x : ℕ} → Lists disk b i → HasBlock disk file_type i x → Uses disk b x
  below :
      {b i c x : ℕ} → Lists disk b i → HasBlock disk dir_type i c → Uses disk c x → Uses disk b x

-- The tree below the directory block `b` is finite.
pub data Finite (disk : Disk) : ℕ → Type 0 where
  finite :
      {b : ℕ}
      → ((i c : ℕ) → Lists disk b i → HasBlock disk dir_type i c → Finite disk c)
      → Finite disk b

-- Block `x` is used by the tree below one of the blocks.
abbrev pub UsedBy : Disk → List ℕ → ℕ → Type 0
UsedBy disk bs x = (b : ℕ) × Memᴰ b bs × Uses disk b x

-- The directory blocks below one inode, one entry, one block.
unfoldable pub inode_children : Inode → List ℕ
inode_children inode =
    if inode.type == file_type then [] else if inode.type == dir_type then used_blocks inode else []

unfoldable pub entry_children : Disk → DirEntry → List ℕ
unfolding inode_children
entry_children disk e =
    if e.inode_block == 0 then [] else inode_children (decode_inode (disk e.inode_block))

unfoldable pub entries_children : Disk → List DirEntry → List ℕ
unfolding entry_children
entries_children disk [] = []
entries_children disk (e ∷ es) = entry_children disk e ++ entries_children disk es

abbrev pub children : Disk → ℕ → List ℕ
children disk b = entries_children disk (decode_entries (disk b))

-- The inode's block and a file's contents.
abbrev pub InodeUses : Inode → ℕ → ℕ → Type 0
InodeUses inode block x = (x ≡ block) ⊎ ((inode.type ≡ file_type) × Memᴰ x (used_blocks inode))

abbrev pub EntryUses : Disk → DirEntry → ℕ → Type 0
EntryUses disk e x =
    (e.inode_block ≢ 0) × InodeUses (decode_inode (disk e.inode_block)) e.inode_block x

abbrev pub EntriesUse : Disk → List DirEntry → ℕ → Type 0
EntriesUse disk es x = (e : DirEntry) × Memᴰ e es × EntryUses disk e x
