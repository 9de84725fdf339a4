-- ===== src/FileServer/Init.antt =====
-- `init_free_blocks` of Project4/file_server.cpp: the breadth-first search of the initial disk.
pub mod Reach
pub mod Visits
pub mod Levels
pub mod Free
use eecs.Base.{
  ℕ, zero, suc, ◌+◌, ◌-◌, ◌≡◌, Bool, true, false, not, List, [], ◌∷◌, ◌++◌, Option, none, some,
  ◌==◌, if◌then◌else◌,
}
use eecs.FileServer.Params.{fs_disksize}
use eecs.FileServer.Layout.{Inode, DirEntry, decode_inode, decode_entries}
use eecs.FileServer.State.{Disk}
use eecs.FileServer.Directory.{used_blocks, dir_type, file_type}

-- `erase` of the set of blocks, which is kept in increasing order.
unfoldable pub erase : ℕ → List ℕ → List ℕ
erase b [] = []
erase b (x ∷ all) = if x == b then erase b all else x ∷ erase b all

unfoldable pub erase_all : List ℕ → List ℕ → List ℕ
erase_all [] all = all
erase_all (b ∷ bs) all = erase_all bs (erase b all)

-- The blocks from `b` on, `n` of them.
unfoldable pub count_up : ℕ → ℕ → List ℕ
count_up zero b = []
count_up (suc n) b = b ∷ count_up n (suc b)

-- One entry in use, with its inode: the blocks that are left and the queue.
unfoldable pub visit_inode : Inode → ℕ → List ℕ × List ℕ → List ℕ × List ℕ
unfolding erase erase_all
visit_inode inode block (all_blocks, dir_inodes) =
    let left = erase block all_blocks in
    if inode.type == file_type
    then (erase_all (used_blocks inode) left, dir_inodes)
    else if inode.type == dir_type
    then (left, dir_inodes ++ used_blocks inode)
    else (left, dir_inodes)

unfoldable pub visit_entry : Disk → DirEntry → List ℕ × List ℕ → List ℕ × List ℕ
unfolding visit_inode
visit_entry disk entry s =
    if entry.inode_block == 0
    then s
    else visit_inode (decode_inode (disk entry.inode_block)) entry.inode_block s

unfoldable pub visit_entries : Disk → List DirEntry → List ℕ × List ℕ → List ℕ × List ℕ
unfolding visit_entry
visit_entries disk [] s = s
visit_entries disk (e ∷ es) s = visit_entries disk es (visit_entry disk e s)

-- The while loop. On a disk with a cycle of directories it has no end: `none` means that the fuel
-- did not last.
unfoldable pub search_blocks : ℕ → Disk → List ℕ → List ℕ → Option (List ℕ)
search_blocks zero disk dir_inodes all_blocks = none
search_blocks (suc fuel) disk [] all_blocks = some all_blocks
search_blocks (suc fuel) disk (dir_block ∷ dir_inodes) all_blocks =
    let (left, queue) =
      visit_entries disk (decode_entries (disk dir_block))
        (erase dir_block all_blocks, dir_inodes) in
    search_blocks fuel disk queue left

-- The queue of free blocks at the start.
unfoldable pub init_free_blocks : ℕ → Disk → Option (List ℕ)
unfolding search_blocks count_up
init_free_blocks fuel disk =
    search_blocks fuel disk (used_blocks (decode_inode (disk 0))) (count_up (fs_disksize - 1) 1)
