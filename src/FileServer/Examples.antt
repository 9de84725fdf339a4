-- ===== src/FileServer/Examples.antt =====
-- A small disk and the theorems about the handlers at it: the root directory holds a file "a" of
-- user "ann" with one data block.
mod Texts
mod Connections
use eecs.Base.{
  Memᴰ, subst, All-get_elem?, sym, ◌∙◌, ◌≤◌, ◌<◌, ◌==◌, ◌||◌, ◌&&◌, ◌⊎◌, inl, inr, ℕ, zero, suc,
  ◌≡◌, refl, ◌≢◌, ◌↔◌, Bool, true, some, List, [], ◌∷◌, ◌++◌, replicate, All, arith, codes,
  bytes_eq, c_str, strcpy,
}
use eecs.FileServer.Layout.{
  Inode, DirEntry, Block, decode_inode, encode_inode, decode_entries, encode_entries,
  decode_entries_from, get_u32, put_u32, get_u32s, put_u32s,
}
use eecs.FileServer.State.{Disk, Server, emit, shared, update, done, returned}
use eecs.FileServer.State.Locks.{AllFree}
use mathlib.Core.List.Memᴰ
use eecs.FileServer.Params.{fs_disksize}
use eecs.FileServer.Init.{init_free_blocks}
use eecs.FileServer.Init.Reach.{
  Finite, finite, UsedBy, children, entries_children, entry_children, inode_children,
}
use eecs.FileServer.Init.Levels.{Lists-children}
use eecs.FileServer.Init.Free.{init_free_blocks-Free}
use eecs.FileServer.Directory.{TargetInode, new_target, check_existance, used_blocks, traverse_dir}
use eecs.FileServer.Directory.Blocks.{Searched, check_existance-Searched}
use eecs.FileServer.Directory.Traverse.{
  Traversed, traverse_dir-Traversed, HasEntry, Resolves, last, UniqueEntries, traverse_dir-Resolves,
}
use eecs.FileServer.Common.{Stack}
use eecs.FileServer.Handlers.{handle_readblock, handle_delete}
use eecs.FileServer.Handlers.{Request, delete, create, serve_request}
use eecs.FileServer.Handlers.Released.{serve_request-AllFree}
use eecs.FileServer.Handlers.Locks.{NoSelfEntry}
use eecs.FileServer.Handlers.Atomic.{Rotated, serve_request-Rotated}

abbrev padded : List ℕ → ℕ → List ℕ
padded s n = strcpy (replicate n 0) s

abbrev root_inode : Inode
root_inode = record { type = b'd'; owner = replicate 11 0; size = 1; blocks = 1 ∷ replicate 123 0 }

abbrev pub file_inode : Inode
file_inode = record {
  type = b'f';
  owner = b'a' ∷ b'n' ∷ b'n' ∷ replicate 8 0;
  size = 1;
  blocks = 3 ∷ replicate 123 0;
}

abbrev unused_entry : DirEntry
unused_entry = record { name = replicate 60 0; inode_block = 0 }

abbrev file_entry : DirEntry
file_entry = record { name = b'a' ∷ replicate 59 0; inode_block = 2 }

abbrev pub root_entries : List DirEntry
root_entries = file_entry ∷ replicate 7 unused_entry

abbrev data_block : Block
data_block = b'x' ∷ replicate 511 0

unfoldable pub small_disk : Disk
unfolding update
small_disk =
    update
      (update
        (update (update (λ _. replicate 512 0) 0 (encode_inode root_inode)) 1
          (encode_entries root_entries))
        2 (encode_inode file_inode))
      3 data_block

abbrev pub small_server : Server
small_server = record { disk = small_disk; free_blocks = 4 ∷ 5 ∷ 6 ∷ []; log = [] }

abbrev pub junk : Stack
junk = record {
  entries = replicate 8 unused_entry;
  inode = record { type = 0; owner = replicate 11 7; size = 9; blocks = replicate 124 1 };
  past = replicate 512 9;
}

-- What computes when a test runs on the disk.
unfoldable pub images : Disk → Disk
unfolding small_disk encode_inode encode_entries decode_inode decode_entries decode_entries_from
    get_u32 put_u32 get_u32s put_u32s
images d = d

reads :
    (handle_readblock (codes " 0") (codes "ann") (codes "/a") small_server).0
    ≡ done (codes "FS_READBLOCK ann /a 0" ++ 0 ∷ data_block)
unfolding images handle_readblock bytes_eq c_str
reads = refl

-- Every entry in use in directory `d` is for the inode block `c`.
abbrev all_for : ℕ → List DirEntry → Bool
all_for c [] = true
all_for c (e ∷ es) = (e.inode_block == 0 || e.inode_block == c) && all_for c es

abbrev all_blocks_for : Disk → ℕ → List ℕ → Bool
all_blocks_for disk c [] = true
all_blocks_for disk c (b ∷ bs) = all_for c (decode_entries (disk b)) && all_blocks_for disk c bs

all_for-All :
    (c : ℕ) (es : List DirEntry)
    → all_for c es ≡ true
    → All (λ e. (e.inode_block ≡ 0) ⊎ (e.inode_block ≡ c)) es
all_for-All c [] h = tt
all_for-All c (e ∷ es) h = (ground arith, all_for-All c es (ground arith))

all_blocks_for-All :
    (disk : Disk) (c : ℕ) (bs : List ℕ)
    → all_blocks_for disk c bs ≡ true
    → All (λ b. All (λ e. (e.inode_block ≡ 0) ⊎ (e.inode_block ≡ c)) (decode_entries (disk b))) bs
all_blocks_for-All disk c [] h = tt
all_blocks_for-All disk c (b ∷ bs) h = (
  all_for-All c (decode_entries (disk b)) (ground arith),
  all_blocks_for-All disk c bs (ground arith),
)

only_entry :
    (disk : Disk) (d c k : ℕ) (name : List ℕ)
    → all_blocks_for disk c (used_blocks (decode_inode (disk d))) ≡ true
    → HasEntry disk d name k
    → k ≡ c
only_entry disk d c k name h e =
    let blocks = all_blocks_for-All disk c _ h in
    let entries =
      All-get_elem?
        (λ b. All (λ e. (e.inode_block ≡ 0) ⊎ (e.inode_block ≡ c)) (decode_entries (disk b))) _
        e.index e.block blocks e.block_place in
    let this =
      All-get_elem? (λ e. (e.inode_block ≡ 0) ⊎ (e.inode_block ≡ c)) _ e.entry_index e.entry entries
        e.entry_place in
    elim this [ inl z ↦ absurd (e.is_hit.0 z) | inr q ↦ sym e.target ∙ q ]

check_0 : all_blocks_for small_disk 2 (used_blocks (decode_inode (small_disk 0))) ≡ true
unfolding images
check_0 = refl

check_1 : all_blocks_for small_disk 0 (used_blocks (decode_inode (small_disk 1))) ≡ true
unfolding images
check_1 = refl

check_2 : all_blocks_for small_disk 0 (used_blocks (decode_inode (small_disk 2))) ≡ true
unfolding images
check_2 = refl

check_3 : all_blocks_for small_disk 0 (used_blocks (decode_inode (small_disk 3))) ≡ true
unfolding images
check_3 = refl

small_disk_rest : (d : ℕ) → 4 ≤ d → small_disk d ≡ replicate 512 0
unfolding small_disk update
small_disk_rest d h = ground arith

check_zero :
    (disk : Disk) → all_blocks_for disk 0 (used_blocks (decode_inode (replicate 512 0))) ≡ true
unfolding images
check_zero disk = refl

check_rest :
    (d : ℕ)
    → all_blocks_for small_disk 0
        (used_blocks (decode_inode (small_disk (suc (suc (suc (suc d)))))))
      ≡ true
check_rest d = rw (small_disk_rest (suc (suc (suc (suc d)))) (omega arith)) (check_zero small_disk)

-- The only entry of the disk is in the root directory, for block 2.
small_disk_entries :
    (d : ℕ) (name : List ℕ) (c : ℕ) → HasEntry small_disk d name c → (d ≡ 0) × (c ≡ 2)
small_disk_entries d name c e = elim (in_use e) [
  | inl q ↦ q
  | inr q ↦ absurd (e.is_hit.0 (e.target ∙ q))
]
  where
    in_use : HasEntry small_disk d name c → ((d ≡ 0) × (c ≡ 2)) ⊎ (c ≡ 0)
    in_use e = by_block d e
      where
        by_block : (d : ℕ) → HasEntry small_disk d name c → ((d ≡ 0) × (c ≡ 2)) ⊎ (c ≡ 0)
        by_block zero e = inl (refl, only_entry small_disk 0 2 c name check_0 e)
        by_block (suc zero) e = inr (only_entry small_disk 1 0 c name check_1 e)
        by_block (suc (suc zero)) e = inr (only_entry small_disk 2 0 c name check_2 e)
        by_block (suc (suc (suc zero))) e = inr (only_entry small_disk 3 0 c name check_3 e)
        by_block (suc (suc (suc (suc d)))) e =
            inr (only_entry small_disk (suc (suc (suc (suc d)))) 0 c name (check_rest d) e)

pub small_disk-NoSelfEntry : NoSelfEntry small_disk
small_disk-NoSelfEntry d name i e = ground (arith, small_disk_entries d name d e)

small_disk-UniqueEntries : UniqueEntries small_disk
small_disk-UniqueEntries d name c c' i e e' =
    (small_disk_entries d name c e).1 ∙ sym (small_disk_entries d name c' e').1

pub small_server-AllFree : AllFree small_server.log
small_server-AllFree = record { each = λ b. refl; free = refl }

abbrev create_b : Request
create_b = create junk (codes " f") (codes "ann") (codes "/b")

serve_request-AllFree_example : AllFree (serve_request create_b small_server).1.log
serve_request-AllFree_example =
    serve_request-AllFree create_b small_server small_disk-NoSelfEntry small_server-AllFree

-- User "bob" may not delete the file.
abbrev delete_a : Request
delete_a = delete junk (codes "bob") (codes "/a")

delete_a_refused : (serve_request delete_a small_server).0 ≡ returned
unfolding images handle_delete bytes_eq c_str
delete_a_refused = refl

delete_a_silent : (message : List ℕ) → (serve_request delete_a small_server).0 ≢ done message
delete_a_silent message e = absurd (ground (arith, delete_a_refused))

serve_request-Rotated_example :
    ((serve_request delete_a small_server).1.disk ≡ small_disk)
    × Rotated (4 ∷ 5 ∷ 6 ∷ []) (serve_request delete_a small_server).1.free_blocks
serve_request-Rotated_example = serve_request-Rotated delete_a small_server delete_a_silent

-- The path "/a" leads to the file.
file_path : Resolves small_disk (codes "ann") 0 (codes "a" ∷ []) 2
unfolding images c_str
file_path = last (record {
  index = 0;
  block = 1;
  block_place = refl;
  entry_index = 0;
  entry = file_entry;
  entry_place = refl;
  is_hit = ((λ z. absurd (omega (arith, z))), refl);
  target = refl;
})

traverse_dir-Traversed_example :
    (t : TargetInode) × (s' : Server) × (traverse_dir (codes "ann") (codes "a" ∷ []) small_server
      ≡ (done t, s'))
    × Traversed (codes "ann") 0 (codes "a" ∷ []) (emit (shared 0) small_server) t s'
traverse_dir-Traversed_example = traverse_dir-Traversed (codes "ann") (codes "a") [] small_server

traverse_dir-Resolves_example :
    (t : TargetInode) × (s' : Server) × (traverse_dir (codes "ann") (codes "a" ∷ []) small_server
      ≡ (done t, s'))
    × (t.valid ≡ true)
    × (t.inode_block ≡ 2)
traverse_dir-Resolves_example =
    traverse_dir-Resolves (codes "ann") (codes "a") [] small_server 2 small_disk-UniqueEntries
      file_path

check_existance-Searched_example :
    Searched small_disk
      (codes "b")
      (1 ∷ [])
      0
      (record { result = new_target; output_entries = some junk.entries })
      (check_existance small_disk new_target root_inode (codes "b") (some junk.entries))
check_existance-Searched_example =
    check_existance-Searched small_disk new_target root_inode (codes "b") (some junk.entries)

-- No directory is below the root.
no_children : children small_disk 1 ≡ []
unfolding images entries_children entry_children inode_children
no_children = refl

root_used : used_blocks (decode_inode (small_disk 0)) ≡ 1 ∷ []
unfolding images
root_used = refl

tree-Finite : (b : ℕ) → Memᴰ b (used_blocks (decode_inode (small_disk 0))) → Finite small_disk b
tree-Finite b m = subst (Finite small_disk) (sym (Memᴰ.eq_of_singleton (rw⁻¹ root_used m))) (
    finite λ i c l h.
      absurd (Memᴰ.not-nil (subst (Memᴰ c) no_children (Lists-children small_disk 1 c l h))))

init_free_blocks-Free_example :
    (fuel : ℕ) × (free_blocks : List ℕ) × (init_free_blocks fuel small_disk ≡ some free_blocks)
    × ((x : ℕ)
        → Memᴰ x free_blocks ↔ (
            (1 ≤ x)
            × (x < fs_disksize)
            × ¬ UsedBy small_disk (used_blocks (decode_inode (small_disk 0))) x))
init_free_blocks-Free_example = init_free_blocks-Free small_disk tree-Finite
