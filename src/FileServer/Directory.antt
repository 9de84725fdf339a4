-- ===== src/FileServer/Directory.antt =====
-- `check_existance` and `traverse_dir` of Project4/file_server.cpp.
pub mod Search
pub mod Blocks
pub mod Traverse
use eecs.Base.{
  ℕ, zero, suc, ◌+◌, ◌-◌, ◌≡◌, Bool, true, false, not, ◌&&◌, ◌||◌, Option, none, some, List, [],
  ◌∷◌, length, take, bytes_eq, c_str, ◌==◌, if◌then◌else◌, codes,
}
use eecs.FileServer.Params.{fs_maxfileblocks}
use eecs.FileServer.Layout.{Block, Inode, DirEntry, decode_entries}
use eecs.FileServer.State.{
  Disk, Server, Outcome, M, ◌>>=◌, ◌>>◌, pure, lock_shared, unlock_shared, read_inode, get_disk,
  done, returned, crashed,
}

-- `struct target_inode`.
pub record TargetInode : Type 0 where
  pub inode_block : ℕ
  pub valid : Bool
  pub first_empty_block : ℕ
  pub first_empty_entry_index : ℕ
  pub parent_inode_block : ℕ

-- The value of `first_empty_block` that means that no empty entry has been seen.
abbrev pub no_block : ℕ
no_block = fs_maxfileblocks + 1

abbrev pub new_target : TargetInode
new_target = record {
  inode_block = 0;
  valid = false;
  first_empty_block = no_block;
  first_empty_entry_index = 0;
  parent_inode_block = 0;
}

-- The result of a search and the caller's buffer, `none` for a null pointer.
pub record Scan : Type 0 where
  pub result : TargetInode
  pub output_entries : Option (List DirEntry)

abbrev pub copy_out : Option (List DirEntry) → List DirEntry → Option (List DirEntry)
copy_out none entries = none
copy_out (some old) entries = some entries

abbrev pub is_some {ℓ} : {A : Type ℓ} → Option A → Bool
is_some none = false
is_some (some a) = true

abbrev pub is_hit : List ℕ → DirEntry → Bool
is_hit target_name entry = not (entry.inode_block == 0) && bytes_eq (c_str entry.name) target_name

abbrev pub hit : ℕ → ℕ → List DirEntry → DirEntry → Scan → Scan
hit i j entries entry r = record {
  result = record {
    inode_block = entry.inode_block;
    valid = true;
    first_empty_block = i;
    first_empty_entry_index = j;
    parent_inode_block = r.result.parent_inode_block;
  };
  output_entries = copy_out r.output_entries entries;
}

-- The `else if`: the first unused entry, if the caller wants one. It stores the block's number.
abbrev pub miss : ℕ → ℕ → List DirEntry → DirEntry → Scan → Scan
miss block j entries entry r =
    if is_some r.output_entries
      && (entry.inode_block == 0 && r.result.first_empty_block == no_block)
    then (record {
      result = record {
        inode_block = r.result.inode_block;
        valid = r.result.valid;
        first_empty_block = block;
        first_empty_entry_index = j;
        parent_inode_block = r.result.parent_inode_block;
      };
      output_entries = copy_out r.output_entries entries;
    })
    else r

-- The inner loop, over the entries from index `j` on; `true` if it has returned.
unfoldable pub scan_entries :
    List ℕ → ℕ → ℕ → List DirEntry → ℕ → List DirEntry → Scan → Scan × Bool
scan_entries name i block entries j [] r = (r, false)
scan_entries name i block entries j (e ∷ es) r = elim (is_hit name e) [
  | true ↦ (hit i j entries e r, true)
  | false ↦ scan_entries name i block entries (suc j) es (miss block j entries e r)
]

abbrev pub unless_found : Scan × Bool → (Scan → Scan) → Scan
unless_found (r, true) next = r
unless_found (r, false) next = next r

-- The outer loop, over the directory's blocks from index `i` on.
unfoldable pub scan_blocks : Disk → List ℕ → ℕ → List ℕ → Scan → Scan
scan_blocks disk name i [] r = r
scan_blocks disk name i (b ∷ bs) r =
    let entries = decode_entries (disk b) in
    unless_found (scan_entries name i b entries 0 entries r)
      (λ r'. scan_blocks disk name (suc i) bs r')

-- The blocks of a file or directory that are in use; with the array at the latest they end.
abbrev pub used_blocks : Inode → List ℕ
used_blocks inode = take inode.size inode.blocks

unfoldable pub check_existance : Disk → TargetInode → Inode → List ℕ → Option (List DirEntry) → Scan
unfolding scan_blocks scan_entries
check_existance disk result inode target_name output_entries =
    scan_blocks disk target_name 0 (used_blocks inode)
      (record { result = record result { valid = false }; output_entries = output_entries })

abbrev pub dir_type : ℕ
dir_type = b'd'

abbrev pub file_type : ℕ
file_type = b'f'

-- One round of `traverse_dir` at directory `dir_block`, if it is not the last one: `found` is the
-- result of the search, and `next` is the rest of the loop.
unfoldable pub descend :
    List ℕ → ℕ → TargetInode → (Inode → TargetInode → M TargetInode) → M TargetInode
descend username dir_block found next = if not found.valid then pure found else do
  lock_shared found.inode_block
  unlock_shared dir_block
  child ← read_inode found.inode_block
  let here = record found { parent_inode_block = found.inode_block }
  if not (bytes_eq (c_str child.owner) username) || not (child.type == dir_type)
      then pure (record here { valid = false })
      else next child here

-- The loop of `traverse_dir`, at the directory `inode` in block `dir_block`.
unfoldable pub traverse_loop : List ℕ → ℕ → Inode → TargetInode → List (List ℕ) → M TargetInode
unfolding descend
traverse_loop username dir_block inode result [] = pure result
traverse_loop username dir_block inode result (name ∷ []) = do
  disk ← get_disk
  pure (check_existance disk result inode name none).result
traverse_loop username dir_block inode result (name ∷ next ∷ rest) = do
  disk ← get_disk
  descend username dir_block (check_existance disk result inode name none).result
      (λ child here. traverse_loop username here.inode_block child here (next ∷ rest))

unfoldable pub traverse_dir : List ℕ → List (List ℕ) → M TargetInode
unfolding traverse_loop check_existance
traverse_dir username [] = pure (record new_target { valid = true })
traverse_dir username (name ∷ rest) = do
  lock_shared 0
  root ← read_inode 0
  traverse_loop username 0 root (record new_target { valid = true }) (name ∷ rest)
