-- ===== src/FileServer/Layout.antt =====
-- The on-disk structures of Project4/fs_server.h, and their images in a block of 512 bytes
-- (little-endian, as `disk_readblock` and `disk_writeblock` copy the objects).
pub mod Exact
pub mod RoundTrip
use eecs.Base.{
  ℕ, zero, suc, ◌+◌, ◌*◌, ◌/◌, ◌%◌, ◌^◌, ◌<◌, ◌≡◌, List, [], ◌∷◌, ◌++◌, length, take, drop, All,
}
use eecs.FileServer.Params.{
  fs_blocksize, fs_maxfileblocks, fs_direntries, fs_maxfilename, fs_maxusername,
}

pub record DirEntry : Type 0 where
  pub name : List ℕ
  pub inode_block : ℕ

pub record Inode : Type 0 where
  pub type : ℕ
  pub owner : List ℕ
  pub size : ℕ
  pub blocks : List ℕ

abbrev pub Block : Type 0
Block = List ℕ

-- A uint32_t in memory.
unfoldable pub get_u32 : List ℕ → ℕ
get_u32 (a ∷ b ∷ c ∷ d ∷ r) = a + 256 * (b + 256 * (c + 256 * d))
get_u32 _ = 0

unfoldable pub put_u32 : ℕ → List ℕ
put_u32 n = (n % 256) ∷ (n / 256 % 256) ∷ (n / 65536 % 256) ∷ (n / 16777216 % 256) ∷ []

-- An array of `k` uint32_t.
unfoldable pub get_u32s : ℕ → List ℕ → List ℕ
get_u32s zero b = []
get_u32s (suc k) b = get_u32 (take 4 b) ∷ get_u32s k (drop 4 b)

unfoldable pub put_u32s : List ℕ → List ℕ
put_u32s [] = []
put_u32s (x ∷ xs) = put_u32 x ++ put_u32s xs

abbrev pub head_or_zero : List ℕ → ℕ
head_or_zero [] = 0
head_or_zero (x ∷ xs) = x

-- `fs_inode`: type at 0, owner at 1, size at 12, blocks at 16.
unfoldable pub decode_inode : Block → Inode
decode_inode b = record {
  type = head_or_zero (take 1 b);
  owner = take (fs_maxusername + 1) (drop 1 b);
  size = get_u32 (take 4 (drop (fs_maxusername + 1) (drop 1 b)));
  blocks = get_u32s fs_maxfileblocks (drop 4 (drop (fs_maxusername + 1) (drop 1 b)));
}

unfoldable pub encode_inode : Inode → Block
encode_inode i = (i.type ∷ []) ++ (i.owner ++ (put_u32 i.size ++ put_u32s i.blocks))

-- `fs_direntry[n]`: 60 bytes of name and the inode block, each.
unfoldable pub decode_entries_from : ℕ → Block → List DirEntry
decode_entries_from zero b = []
decode_entries_from (suc k) b =
    record {
      name = take (fs_maxfilename + 1) b;
      inode_block = get_u32 (take 4 (drop (fs_maxfilename + 1) b));
    }
    ∷ decode_entries_from k (drop 4 (drop (fs_maxfilename + 1) b))

unfoldable pub decode_entries : Block → List DirEntry
decode_entries b = decode_entries_from fs_direntries b

unfoldable pub encode_entries : List DirEntry → Block
encode_entries [] = []
encode_entries (e ∷ es) = e.name ++ (put_u32 e.inode_block ++ encode_entries es)

abbrev pub IsU32 : ℕ → Type 0
IsU32 n = n < 2 ^ 32

abbrev pub IsByte : ℕ → Type 0
IsByte n = n < 256

-- What an object of the type can hold.
pub record IsInode (i : Inode) : Type 0 where
  pub type_range : IsByte i.type
  pub owner_range : All IsByte i.owner
  pub owner_length : length i.owner ≡ fs_maxusername + 1
  pub size_range : IsU32 i.size
  pub blocks_length : length i.blocks ≡ fs_maxfileblocks
  pub blocks_range : All IsU32 i.blocks

abbrev pub IsEntry : DirEntry → Type 0
IsEntry e = (length e.name ≡ fs_maxfilename + 1) × IsU32 e.inode_block × All IsByte e.name

pub record IsEntries (es : List DirEntry) : Type 0 where
  pub count : length es ≡ fs_direntries
  pub each : All IsEntry es

-- A disk block: FS_BLOCKSIZE bytes.
abbrev pub IsBlock : Block → Type 0
IsBlock b = (length b ≡ fs_blocksize) × All IsByte b
