-- ===== src/FileServer/Examples/Texts.antt =====
-- The texts of requests, images of blocks and responses: the theorems at small ones.
use eecs.Base.{
  replicate, ℕ, map, ◌≤◌, ◌<◌, ◌≡◌, refl, ◌≢◌, ◌↔◌, true, some, [], ◌∷◌, All, arith, codes,
}
use eecs.FileServer.Responses.{taken, failed, send_loop, send_response, send_response-Sent}
use eecs.FileServer.Layout.{
  decode_inode, encode_inode, decode_entries, encode_entries, IsInode, IsEntries, Block, IsBlock,
}
use eecs.FileServer.Layout.RoundTrip.{decode_inode-encode_inode, decode_entries-encode_entries}
use eecs.FileServer.Text.{find_space, all_digits, path_parser, isblock, stoi}
use eecs.FileServer.Text.Spaces.{find_space-spaces, Dispatches, check_request_type-Dispatches}
use eecs.FileServer.Text.Blocks.{isblock-stoi}
use eecs.FileServer.Text.Paths.{join, IsName, path_parser_iff}
use eecs.FileServer.Examples.{file_inode, root_entries}

path_parser_iff_example : (path_parser (codes "/a/b") ≡ some (codes "a" ∷ codes "b" ∷ [])) ↔ (
    (codes "/a/b" ≡ join (codes "a" ∷ codes "b" ∷ []))
    × All IsName (codes "a" ∷ codes "b" ∷ [])
    × (codes "a" ∷ codes "b" ∷ [] ≢ []))
path_parser_iff_example = path_parser_iff (codes "/a/b") (codes "a" ∷ codes "b" ∷ [])

check_request_type-RequestType_example :
    Dispatches (codes "FS_DELETE") (codes "FS_DELETE ann /a") 1 (codes "FS_READBLOCK") 3
    × Dispatches (codes "FS_DELETE") (codes "FS_DELETE ann /a") 2 (codes "FS_WRITEBLOCK") 3
    × Dispatches (codes "FS_DELETE") (codes "FS_DELETE ann /a") 3 (codes "FS_CREATE") 3
    × Dispatches (codes "FS_DELETE") (codes "FS_DELETE ann /a") 4 (codes "FS_DELETE") 2
check_request_type-RequestType_example =
    check_request_type-Dispatches (codes "FS_DELETE") (codes "FS_DELETE ann /a")

find_space-spaces_example : find_space (codes "FS_DELETE ann /a") ≡ 2
find_space-spaces_example = find_space-spaces (codes "FS_DELETE ann /a")

digits : isblock (codes "123") ≡ true
unfolding isblock all_digits
digits = refl

nonempty : codes "123" ≢ []
nonempty e = cc

isblock-stoi_example : (n : ℕ) × (stoi (codes "123") ≡ some n) × (n < 1000)
isblock-stoi_example = isblock-stoi (codes "123") nonempty digits

file_inode-IsInode : IsInode file_inode
file_inode-IsInode = record {
  type_range = omega arith;
  owner_range = omega arith;
  owner_length = refl;
  size_range = omega arith;
  blocks_length = refl;
  blocks_range = omega arith;
}

root_entries-IsEntries : IsEntries root_entries
root_entries-IsEntries = record { count = refl; each = omega arith }

abbrev zeros : Block
zeros = replicate 512 0

zeros-IsBlock : IsBlock zeros
zeros-IsBlock = (refl, omega arith)

decode_inode-encode_inode_example :
    IsBlock (encode_inode file_inode)
    × (decode_inode (encode_inode file_inode) ≡ file_inode)
    × IsInode (decode_inode zeros)
    × (encode_inode (decode_inode zeros) ≡ zeros)
decode_inode-encode_inode_example =
    decode_inode-encode_inode file_inode zeros file_inode-IsInode zeros-IsBlock

decode_entries-encode_entries_example :
    IsBlock (encode_entries root_entries)
    × (decode_entries (encode_entries root_entries) ≡ root_entries)
    × IsEntries (decode_entries zeros)
    × (encode_entries (decode_entries zeros) ≡ zeros)
decode_entries-encode_entries_example =
    decode_entries-encode_entries root_entries zeros root_entries-IsEntries zeros-IsBlock

at_least_one : All (λ n. 1 ≤ n) (2 ∷ 1 ∷ [])
at_least_one = (omega arith, (omega arith, tt))

send_response-Sent_example :
    send_response (map taken (2 ∷ 1 ∷ [])) (7 ∷ 8 ∷ 9 ∷ []) ≡ some (7 ∷ 8 ∷ 9 ∷ [])
send_response-Sent_example =
    send_response-Sent (2 ∷ 1 ∷ []) (7 ∷ 8 ∷ 9 ∷ []) at_least_one (omega arith) refl

-- A failed call takes a byte back, which goes out twice.
sends_twice :
    send_response (taken 1 ∷ failed ∷ taken 3 ∷ []) (7 ∷ 8 ∷ 9 ∷ []) ≡ some (7 ∷ 7 ∷ 8 ∷ 9 ∷ [])
unfolding send_response send_loop
sends_twice = refl
