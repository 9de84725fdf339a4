-- ===== src/FileServer/Handlers.antt =====
-- The four request handlers of Project4/file_server.cpp.
pub mod Locks
pub mod Released
pub mod Atomic
use eecs.Base.{
  ℕ, zero, suc, ◌+◌, ◌-◌, ◌≡◌, Bool, true, false, not, ◌&&◌, ◌||◌, Option, none, some, List, [],
  ◌∷◌, ◌++◌, map, length, take, set, get_or, bytes_eq, c_str, strcpy, ◌==◌, ltb, leb, if◌then◌else◌,
  codes,
}
use eecs.FileServer.Params.{fs_maxfileblocks, fs_direntries, fs_blocksize}
use eecs.FileServer.Layout.{Block, Inode, DirEntry, encode_inode, encode_entries}
use eecs.FileServer.Text.{path_parser, isblock, stoi}
use eecs.FileServer.State.{
  Disk, Server, Outcome, M, ◌>>=◌, ◌>>◌, pure, leave, or_leave, require, lock_shared, unlock_shared,
  with_unique_lock, with_shared_lock, with_free_lock, disk_writeblock, read_inode, get_disk,
  free_empty, pop_free, push_free, return_empty_block, done, returned, crashed,
}
use eecs.FileServer.Directory.{
  TargetInode, new_target, no_block, check_existance, used_blocks, dir_type, file_type,
  traverse_dir,
}
use eecs.FileServer.Common.{
  Stack, create_message, delete_message, read_message, write_message, isspace, skip_spaces,
  take_word, word_or_fail, next_word, last_name, pop_back, entries_or, no_entry, leave_parent,
  parent_ok, block_number,
}

-- The directory's inode with one more block.
abbrev pub grown : Inode → ℕ → Inode
grown i block = record i { size = i.size + 1; blocks = set i.blocks i.size block }

abbrev pub grow_directory : Inode → M (ℕ × Inode × Bool)
grow_directory parent_inode = do block ← pop_free; pure (block, grown parent_inode block, true)

-- A place for the new entry: the directory block that has one, or a new block. The result is that
-- block, the directory's inode and `change_parent`.
unfoldable pub reserve_entry : ℕ → ℕ → Inode → M (ℕ × Inode × Bool)
reserve_entry new_inode_block dir_block parent_inode =
    if dir_block == no_block
    then (do
      full ← free_empty
      if full || ltb fs_maxfileblocks (parent_inode.size + 1)
          then push_free (new_inode_block ∷ []) >> leave
          else grow_directory parent_inode)
    else pure (dir_block, parent_inode, false)

abbrev pub clear_entry : DirEntry → DirEntry
clear_entry e = record e { inode_block = 0 }

-- `strcpy` of the name, and the inode block.
abbrev pub fill_entry : List ℕ → ℕ → DirEntry → DirEntry
fill_entry name block e = record { name = strcpy e.name name; inode_block = block }

abbrev pub new_inode : Stack → ℕ → List ℕ → Inode
new_inode stack type username = record {
  type = type;
  owner = strcpy stack.inode.owner username;
  size = 0;
  blocks = stack.inode.blocks;
}

abbrev pub first_char : List ℕ → ℕ
first_char [] = 0
first_char (c ∷ s) = c

-- The entries of the directory block that gets the new entry, before it is put in.
abbrev pub cleared : Bool → List DirEntry → List DirEntry
cleared change_parent old = if change_parent then map clear_entry old else old

abbrev pub with_entry : List DirEntry → ℕ → List ℕ → ℕ → List DirEntry
with_entry es index name block = set es index (fill_entry name block (get_or es index no_entry))

-- The writes of `handle_create`: the new inode, the directory block, the directory's inode if it
-- has grown.
unfoldable pub create_entry :
    Stack
    → List ℕ
    → List ℕ
    → List ℕ
    → ℕ
    → TargetInode
    → TargetInode
    → List DirEntry
    → ℕ × Inode × Bool
    → M (Unit {0})
create_entry stack type username name new_inode_block t_inode info old
      (dir_block, parent, change_parent) =
    do
      let es = cleared change_parent old
      disk_writeblock new_inode_block (encode_inode (new_inode stack (first_char type) username))
      disk_writeblock dir_block
          (encode_entries (with_entry es info.first_empty_entry_index name new_inode_block))
      if change_parent then disk_writeblock t_inode.inode_block (encode_inode parent) else pure tt

-- The block of `handle_create` under the directory's write lock.
unfoldable pub create_locked : Stack → List ℕ → List ℕ → List ℕ → ℕ → TargetInode → M (Unit {0})
unfolding reserve_entry return_empty_block check_existance create_entry
create_locked stack type username new_file_name new_inode_block t_inode = do
  leave_parent t_inode
  parent_inode ← read_inode t_inode.inode_block
  if not (parent_ok username parent_inode) then return_empty_block new_inode_block >> leave else do
    disk ← get_disk
    let scan = check_existance disk new_target parent_inode new_file_name (some stack.entries)
    if scan.result.valid then return_empty_block new_inode_block >> leave else do
      place ←
          with_free_lock (reserve_entry new_inode_block scan.result.first_empty_block parent_inode)
      create_entry stack type username new_file_name new_inode_block t_inode scan.result
          (entries_or scan.output_entries stack.entries) place

unfoldable pub handle_create : Stack → List ℕ → List ℕ → List ℕ → M (List ℕ)
unfolding create_locked traverse_dir return_empty_block next_word path_parser last_name pop_back
    bytes_eq
handle_create stack req username pathname = do
  (type, rest) ← or_leave (next_word req)
  require (bytes_eq type (codes "f") || bytes_eq type (codes "d"))
  path_names ← or_leave (path_parser pathname)
  new_inode_block ← with_free_lock pop_free
  t_inode ← traverse_dir username (pop_back path_names)
  if not t_inode.valid
      then (do unlock_shared t_inode.parent_inode_block; return_empty_block new_inode_block; leave)
      else do
        with_unique_lock t_inode.inode_block
            (create_locked stack type username (last_name path_names) new_inode_block t_inode)
        pure (create_message username pathname type)

-- The loop that closes the gap in a directory's blocks: `rounds` rounds from index `i` on.
unfoldable pub shift_blocks : ℕ → ℕ → List ℕ → List ℕ
shift_blocks zero i blocks = blocks
shift_blocks (suc rounds) i blocks =
    shift_blocks rounds (suc i) (set blocks i (get_or blocks (suc i) 0))

unfoldable pub all_unused : List DirEntry → Bool
all_unused [] = true
all_unused (e ∷ es) = e.inode_block == 0 && all_unused es

-- The block of `handle_delete` under both write locks.
unfoldable pub delete_locked :
    List ℕ → TargetInode → Inode → TargetInode → List DirEntry → M (Inode × ℕ)
unfolding shift_blocks all_unused
delete_locked username t_inode parent_inode info parent_entries = do
  file_inode ← read_inode info.inode_block
  require (
      bytes_eq (c_str file_inode.owner) username
      && not (file_inode.type == dir_type && ltb 0 file_inode.size))
  let index = info.first_empty_entry_index
  let victim = get_or parent_entries index no_entry
  let left = set parent_entries index (clear_entry victim)
  let curr_block = get_or parent_inode.blocks info.first_empty_block 0
  if all_unused left
      then (do
        disk_writeblock t_inode.inode_block (
            encode_inode (record parent_inode {
              size = parent_inode.size - 1;
              blocks =
                  shift_blocks (parent_inode.size - 1 - info.first_empty_block)
                    info.first_empty_block parent_inode.blocks;
            }))
        with_free_lock (push_free (curr_block ∷ [])))
      else disk_writeblock curr_block (encode_entries left)
  pure (file_inode, victim.inode_block)

-- The block of `handle_delete` under the directory's write lock.
unfoldable pub delete_in : Stack → List ℕ → List ℕ → TargetInode → M (Inode × ℕ)
unfolding delete_locked check_existance
delete_in stack username target_name t_inode = do
  leave_parent t_inode
  parent_inode ← read_inode t_inode.inode_block
  require (parent_ok username parent_inode)
  disk ← get_disk
  let scan = check_existance disk new_target parent_inode target_name (some stack.entries)
  let info = scan.result
  require info.valid
  with_unique_lock info.inode_block (
      delete_locked username t_inode parent_inode info
        (entries_or scan.output_entries stack.entries))

unfoldable pub handle_delete : Stack → List ℕ → List ℕ → M (List ℕ)
unfolding delete_in traverse_dir path_parser last_name pop_back
handle_delete stack username pathname = do
  path_names ← or_leave (path_parser pathname)
  t_inode ← traverse_dir username (pop_back path_names)
  if not t_inode.valid then (do unlock_shared t_inode.parent_inode_block; leave) else do
    (file_inode, entry_block) ←
        with_unique_lock t_inode.inode_block
          (delete_in stack username (last_name path_names) t_inode)
    with_free_lock (push_free (used_blocks file_inode ++ (entry_block ∷ [])))
    pure (delete_message username pathname)

-- The block of `handle_readblock` under the file's read lock.
unfoldable pub read_in : List ℕ → ℕ → TargetInode → M Block
read_in username block_id t_inode = do
  leave_parent t_inode
  file_inode ← read_inode t_inode.inode_block
  require (
      bytes_eq (c_str file_inode.owner) username
      && (file_inode.type == file_type && ltb block_id file_inode.size))
  disk ← get_disk
  pure (disk (get_or file_inode.blocks block_id 0))

unfoldable pub handle_readblock : List ℕ → List ℕ → List ℕ → M (List ℕ)
unfolding read_in traverse_dir next_word path_parser block_number
handle_readblock req username pathname = do
  (block_str, rest) ← or_leave (next_word req)
  block_id ← block_number block_str
  path_names ← or_leave (path_parser pathname)
  t_inode ← traverse_dir username path_names
  if not t_inode.valid then (do unlock_shared t_inode.parent_inode_block; leave) else do
    contents ← with_shared_lock t_inode.inode_block (read_in username block_id t_inode)
    pure (read_message username pathname block_str contents)

-- What `recv` does: one byte or more, the end of the stream (0), or an error (-1).
pub data Recv : Type 0 where
  bytes : ℕ → List ℕ → Recv
  closed : Recv
  failed : Recv

-- The receiving loop of `handle_writeblock`. `data.append(buf, -1)` throws before the test for an
-- error is reached. A list of calls that ends stands for a stream that is closed there.
unfoldable pub recv_loop : List ℕ → List Recv → M (List ℕ)
recv_loop so_far [] = pure so_far
recv_loop so_far (closed ∷ more) = pure so_far
recv_loop so_far (failed ∷ more) = λ s. (crashed, s)
recv_loop so_far (bytes b bs ∷ more) = elim (leb fs_blocksize (length (so_far ++ b ∷ bs))) [
  | true ↦ pure (so_far ++ b ∷ bs)
  | false ↦ recv_loop (so_far ++ b ∷ bs) more
]

-- The 512 bytes from `data.c_str()` on.
abbrev pub block_image : Stack → List ℕ → Block
block_image stack contents = take fs_blocksize (contents ++ 0 ∷ stack.past)

-- The block of `handle_writeblock` under the file's write lock.
unfoldable pub write_in : List ℕ → ℕ → Block → TargetInode → M (Unit {0})
write_in username block_id contents t_inode = do
  leave_parent t_inode
  file_inode ← read_inode t_inode.inode_block
  require (
      bytes_eq (c_str file_inode.owner) username
      && (file_inode.type == file_type && leb block_id file_inode.size))
  if block_id == file_inode.size
      then (do
        new_data_block ←
            with_free_lock (do require (not (file_inode.size == fs_maxfileblocks)); pop_free)
        let blocks = set file_inode.blocks file_inode.size new_data_block
        disk_writeblock (get_or blocks block_id 0) contents
        disk_writeblock t_inode.inode_block
            (encode_inode (record file_inode { size = file_inode.size + 1; blocks = blocks })))
      else disk_writeblock (get_or file_inode.blocks block_id 0) contents

unfoldable pub handle_writeblock : Stack → List ℕ → List Recv → List ℕ → List ℕ → M (List ℕ)
unfolding write_in traverse_dir next_word path_parser block_number recv_loop
handle_writeblock stack req incoming username pathname = do
  (block_str, rest) ← or_leave (next_word req)
  block_id ← block_number block_str
  contents ← recv_loop [] incoming
  path_names ← or_leave (path_parser pathname)
  t_inode ← traverse_dir username path_names
  if not t_inode.valid then (do unlock_shared t_inode.parent_inode_block; leave) else do
    with_unique_lock t_inode.inode_block
        (write_in username block_id (block_image stack contents) t_inode)
    pure (write_message username pathname block_str)

-- The four requests, each with what its handler is given.
pub data Request : Type 0 where
  create : (stack : Stack) (req username pathname : List ℕ) → Request
  delete : (stack : Stack) (username pathname : List ℕ) → Request
  readblock : (req username pathname : List ℕ) → Request
  writeblock :
      (stack : Stack) (req : List ℕ) (incoming : List Recv) (username pathname : List ℕ) → Request

-- The handler of a request.
abbrev pub serve_request : Request → M (List ℕ)
serve_request (create stack req username pathname) = handle_create stack req username pathname
serve_request (delete stack username pathname) = handle_delete stack username pathname
serve_request (readblock req username pathname) = handle_readblock req username pathname
serve_request (writeblock stack req incoming username pathname) =
    handle_writeblock stack req incoming username pathname
