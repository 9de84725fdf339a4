-- ===== src/FileServer/Common.antt =====
-- What the four request handlers share. `Stack` holds what a handler's uninitialised locals and the
-- bytes behind a string contain: nothing is assumed of it.
use eecs.Base.{
  ℕ, Bool, not, ◌&&◌, ◌||◌, Option, none, some, List, [], ◌∷◌, ◌++◌, bytes_eq, c_str, ◌==◌, leb,
  if◌then◌else◌, codes,
}
use eecs.FileServer.Params.{fs_maxfileblocks}
use eecs.FileServer.Layout.{Inode, DirEntry}
use eecs.FileServer.Text.{isblock, stoi}
use eecs.FileServer.State.{M, ◌>>=◌, ◌>>◌, pure, or_throw, require, unlock_shared}
use eecs.FileServer.Directory.{TargetInode, dir_type}

pub record Stack : Type 0 where
  pub entries : List DirEntry
  pub inode : Inode
  pub past : List ℕ

-- The responses.
abbrev pub create_message : List ℕ → List ℕ → List ℕ → List ℕ
create_message username pathname type =
    codes "FS_CREATE " ++ (username ++ (b' ' ∷ (pathname ++ (b' ' ∷ (type ++ (0 ∷ []))))))

abbrev pub delete_message : List ℕ → List ℕ → List ℕ
delete_message username pathname =
    codes "FS_DELETE " ++ (username ++ (b' ' ∷ (pathname ++ (0 ∷ []))))

abbrev pub read_message : List ℕ → List ℕ → List ℕ → List ℕ → List ℕ
read_message username pathname block_str contents =
    codes "FS_READBLOCK "
    ++ (username ++ (b' ' ∷ (pathname ++ (b' ' ∷ (block_str ++ (0 ∷ contents))))))

abbrev pub write_message : List ℕ → List ℕ → List ℕ → List ℕ
write_message username pathname block_str =
    codes "FS_WRITEBLOCK " ++ (username ++ (b' ' ∷ (pathname ++ (b' ' ∷ (block_str ++ (0 ∷ []))))))

-- std::isspace in the C locale.
abbrev pub isspace : ℕ → Bool
isspace c = c == 32 || (leb 9 c && leb c 13)

unfoldable pub skip_spaces : List ℕ → List ℕ
skip_spaces [] = []
skip_spaces (c ∷ s) = if isspace c then skip_spaces s else c ∷ s

unfoldable pub take_word : List ℕ → List ℕ × List ℕ
take_word [] = ([], [])
take_word (c ∷ s) = let (w, r) = take_word s in if isspace c then ([], c ∷ s) else (c ∷ w, r)

abbrev pub word_or_fail : List ℕ × List ℕ → Option (List ℕ × List ℕ)
word_or_fail ([], r) = none
word_or_fail (c ∷ w, r) = some (c ∷ w, r)

-- `req >> word`.
unfoldable pub next_word : List ℕ → Option (List ℕ × List ℕ)
unfolding skip_spaces take_word
next_word s = word_or_fail (take_word (skip_spaces s))

-- The last element of a vector, and `pop_back`.
unfoldable pub last_name : List (List ℕ) → List ℕ
last_name [] = []
last_name (n ∷ []) = n
last_name (n ∷ m ∷ ns) = last_name (m ∷ ns)

unfoldable pub pop_back : List (List ℕ) → List (List ℕ)
pop_back [] = []
pop_back (n ∷ []) = []
pop_back (n ∷ m ∷ ns) = n ∷ pop_back (m ∷ ns)

abbrev pub entries_or : Option (List DirEntry) → List DirEntry → List DirEntry
entries_or none d = d
entries_or (some es) d = es

abbrev pub no_entry : DirEntry
no_entry = record { name = []; inode_block = 0 }

-- The parent's lock of `traverse_dir` is given up once the target's own lock is held.
abbrev pub leave_parent : TargetInode → M (Unit {0})
leave_parent t = if t.inode_block == 0 then pure tt else unlock_shared t.parent_inode_block

-- What a handler does if `traverse_dir` fails, before it returns.
abbrev pub parent_ok : List ℕ → Inode → Bool
parent_ok username i =
    (bytes_eq (c_str i.owner) username || bytes_eq (c_str i.owner) []) && i.type == dir_type

-- The number in the request, if `isblock` takes it and it is in range.
unfoldable pub block_number : List ℕ → M ℕ
unfolding isblock stoi
block_number block_str = do
  require (isblock block_str)
  block_id ← or_throw (stoi block_str)
  require (not (leb fs_maxfileblocks block_id))
  pure block_id
