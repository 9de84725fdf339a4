-- ===== src/FileServer/Layout/RoundTrip.antt =====
-- The structures and their images in a block, both ways.
use eecs.Base.{
  ℕ, zero, suc, ◌*◌, ◌≡◌, refl, ap, subst, List, [], ◌∷◌, ◌++◌, length, take, drop, All, arith,
  take-length-append, drop-length-append, length-append, length-take, length-drop, All-take,
  All-drop, All-append,
}
use eecs.FileServer.Layout.Exact.{encode_inode-decode_inode, encode_entries-decode_entries}
use eecs.FileServer.Layout.{
  DirEntry, Inode, Block, get_u32, put_u32, get_u32s, put_u32s, head_or_zero, decode_inode,
  encode_inode, decode_entries_from, decode_entries, encode_entries, IsU32, IsByte, IsInode,
  IsEntry, IsEntries, IsBlock,
}

get_u32-put_u32 : (n : ℕ) → IsU32 n → get_u32 (put_u32 n) ≡ n
unfolding get_u32 put_u32
get_u32-put_u32 n h = omega arith

length-put_u32 : (n : ℕ) → length (put_u32 n) ≡ 4
unfolding put_u32
length-put_u32 n = refl

module _ {ℓ} {A : Type ℓ} where
  take-append_of_length : (n : ℕ) (xs ys : List A) → length xs ≡ n → take n (xs ++ ys) ≡ xs
  take-append_of_length n xs ys h = subst (λ k. take k (xs ++ ys) ≡ xs) h (take-length-append xs ys)

  drop-append_of_length : (n : ℕ) (xs ys : List A) → length xs ≡ n → drop n (xs ++ ys) ≡ ys
  drop-append_of_length n xs ys h = subst (λ k. drop k (xs ++ ys) ≡ ys) h (drop-length-append xs ys)

take-put_u32 : (n : ℕ) (r : List ℕ) → take 4 (put_u32 n ++ r) ≡ put_u32 n
take-put_u32 n r = take-append_of_length 4 (put_u32 n) r (length-put_u32 n)

drop-put_u32 : (n : ℕ) (r : List ℕ) → drop 4 (put_u32 n ++ r) ≡ r
drop-put_u32 n r = drop-append_of_length 4 (put_u32 n) r (length-put_u32 n)

get_u32s-put_u32s : (xs : List ℕ) → All IsU32 xs → get_u32s (length xs) (put_u32s xs) ≡ xs
get_u32s-put_u32s [] h = unfold get_u32s in refl
get_u32s-put_u32s (x ∷ xs) h = step (get_u32s-put_u32s xs h.1)
  where
    cons_lem :
        get_u32s (suc (length xs)) (put_u32s (x ∷ xs))
        ≡ get_u32 (take 4 (put_u32 x ++ put_u32s xs))
          ∷ get_u32s (length xs) (drop 4 (put_u32 x ++ put_u32s xs))
    cons_lem = unfold get_u32s put_u32s in refl

    step :
        get_u32s (length xs) (put_u32s xs) ≡ xs
        → get_u32s (suc (length xs)) (put_u32s (x ∷ xs)) ≡ x ∷ xs
    step ih = rw (
      cons_lem,
      take-put_u32 x (put_u32s xs),
      drop-put_u32 x (put_u32s xs),
      get_u32-put_u32 x h.0,
      ih,
    )

inode_back : (i : Inode) → IsInode i → decode_inode (encode_inode i) ≡ i
unfolding decode_inode encode_inode
inode_back i v =
    let tail = put_u32 i.size ++ put_u32s i.blocks in
    λ k. record {
      type = i.type;
      owner = take-append_of_length 11 i.owner tail v.owner_length k;
      size = size_path k;
      blocks = blocks_path k;
    }
  where
    rest :
        drop 11 (i.owner ++ (put_u32 i.size ++ put_u32s i.blocks))
        ≡ put_u32 i.size ++ put_u32s i.blocks
    rest = drop-append_of_length 11 i.owner _ v.owner_length

    size_path :
        get_u32 (take 4 (drop 11 (i.owner ++ (put_u32 i.size ++ put_u32s i.blocks)))) ≡ i.size
    size_path =
        rw (rest, take-put_u32 i.size (put_u32s i.blocks)) (get_u32-put_u32 i.size v.size_range)

    blocks_path :
        get_u32s 124 (drop 4 (drop 11 (i.owner ++ (put_u32 i.size ++ put_u32s i.blocks))))
        ≡ i.blocks
    blocks_path =
        rw (rest, drop-put_u32 i.size (put_u32s i.blocks))
          (subst (λ n. get_u32s n (put_u32s i.blocks) ≡ i.blocks) v.blocks_length
            (get_u32s-put_u32s i.blocks v.blocks_range))

-- So are the entries of a directory block.
entries_from :
    (es : List DirEntry) → All IsEntry es → decode_entries_from (length es) (encode_entries es) ≡ es
entries_from [] h = unfold decode_entries_from in refl
entries_from (e ∷ es) h = step (entries_from es h.1)
  where
    tail : List ℕ
    tail = put_u32 e.inode_block ++ encode_entries es

    step :
        decode_entries_from (length es) (encode_entries es) ≡ es
        → decode_entries_from (suc (length es)) (encode_entries (e ∷ es)) ≡ e ∷ es
    step ih =
        unfold decode_entries_from encode_entries in
        rw (
          take-append_of_length 60 e.name tail h.0.0,
          drop-append_of_length 60 e.name tail h.0.0,
          take-put_u32 e.inode_block (encode_entries es),
          drop-put_u32 e.inode_block (encode_entries es),
          get_u32-put_u32 e.inode_block h.0.1,
          ih,
        )

entries_back : (es : List DirEntry) → IsEntries es → decode_entries (encode_entries es) ≡ es
unfolding decode_entries
entries_back es v =
    subst (λ n. decode_entries_from n (encode_entries es) ≡ es) v.count (entries_from es v.each)

head_range : (b : List ℕ) → All IsByte b → IsByte (head_or_zero b)
head_range [] h = omega arith
head_range (x ∷ b) h = h.0

get_u32-IsU32 : (b : List ℕ) → All IsByte b → IsU32 (get_u32 b)
unfolding get_u32
get_u32-IsU32 [] h = omega arith
get_u32-IsU32 (x ∷ []) h = omega arith
get_u32-IsU32 (x ∷ y ∷ []) h = omega arith
get_u32-IsU32 (x ∷ y ∷ z ∷ []) h = omega arith
get_u32-IsU32 (x ∷ y ∷ z ∷ w ∷ r) h = omega arith

get_u32s-IsU32 :
    (k : ℕ) (b : List ℕ) → All IsByte b → (length (get_u32s k b) ≡ k) × All IsU32 (get_u32s k b)
get_u32s-IsU32 zero b h = unfold get_u32s in (refl, tt)
get_u32s-IsU32 (suc k) b h = step (get_u32s-IsU32 k (drop 4 b) (All-drop IsByte 4 b h))
  where
    step :
        (length (get_u32s k (drop 4 b)) ≡ k) × All IsU32 (get_u32s k (drop 4 b))
        → (length (get_u32s (suc k) b) ≡ suc k) × All IsU32 (get_u32s (suc k) b)
    step ih =
        unfold get_u32s in (ap suc ih.0, (get_u32-IsU32 (take 4 b) (All-take IsByte 4 b h), ih.1))

-- What is read from any block of 512 bytes is an inode whose fields fit their types.
decode_inode-IsInode : (b : Block) → IsBlock b → IsInode (decode_inode b)
unfolding decode_inode
decode_inode-IsInode b v =
    let words =
      get_u32s-IsU32 124 (drop 4 (drop 11 (drop 1 b)))
        (All-drop IsByte 4 _ (All-drop IsByte 11 _ (All-drop IsByte 1 b v.1))) in
    record {
      type_range = head_range (take 1 b) (All-take IsByte 1 b v.1);
      owner_range = All-take IsByte 11 _ (All-drop IsByte 1 b v.1);
      owner_length = omega (arith, length-take 11 (drop 1 b), length-drop 1 b);
      size_range =
          get_u32-IsU32 _ (All-take IsByte 4 _ (All-drop IsByte 11 _ (All-drop IsByte 1 b v.1)));
      blocks_length = words.0;
      blocks_range = words.1;
    }

entries_from-IsEntry :
    (k : ℕ) (b : Block)
    → All IsByte b
    → length b ≡ k * 64
    → (length (decode_entries_from k b) ≡ k) × All IsEntry (decode_entries_from k b)
entries_from-IsEntry zero b h e = unfold decode_entries_from in (refl, tt)
entries_from-IsEntry (suc k) b h e = step (
    entries_from-IsEntry k (drop 4 (drop 60 b)) (All-drop IsByte 4 _ (All-drop IsByte 60 b h))
      (omega (arith, length-drop 4 (drop 60 b), length-drop 60 b)))
  where
    step :
        (length (decode_entries_from k (drop 4 (drop 60 b))) ≡ k)
          × All IsEntry (decode_entries_from k (drop 4 (drop 60 b)))
        → (length (decode_entries_from (suc k) b) ≡ suc k)
          × All IsEntry (decode_entries_from (suc k) b)
    step ih =
        unfold decode_entries_from in
        (
          ap suc ih.0,
          (
            (
              omega (arith, length-take 60 b),
              get_u32-IsU32 _ (All-take IsByte 4 _ (All-drop IsByte 60 b h)),
              All-take IsByte 60 b h,
            ),
            ih.1,
          ),
        )

-- And eight directory entries whose fields fit theirs.
decode_entries-IsEntries : (b : Block) → IsBlock b → IsEntries (decode_entries b)
unfolding decode_entries
decode_entries-IsEntries b v =
    let both = entries_from-IsEntry 8 b v.1 v.0 in record { count = both.0; each = both.1 }

put_u32-IsByte : (n : ℕ) → All IsByte (put_u32 n)
unfolding put_u32
put_u32-IsByte n = omega arith

put_u32s-IsByte : (xs : List ℕ) → (length (put_u32s xs) ≡ 4 * length xs) × All IsByte (put_u32s xs)
put_u32s-IsByte [] = unfold put_u32s in (refl, tt)
put_u32s-IsByte (x ∷ xs) = step (put_u32s-IsByte xs)
  where
    step :
        (length (put_u32s xs) ≡ 4 * length xs) × All IsByte (put_u32s xs)
        → (length (put_u32s (x ∷ xs)) ≡ 4 * suc (length xs)) × All IsByte (put_u32s (x ∷ xs))
    step ih =
        unfold put_u32s in
        (
          omega (arith, length-append (put_u32 x) (put_u32s xs), length-put_u32 x, ih.0),
          All-append IsByte (put_u32 x) (put_u32s xs) (put_u32-IsByte x) ih.1,
        )

-- The image of an inode fills one block.
encode_inode-IsBlock : (i : Inode) → IsInode i → IsBlock (encode_inode i)
unfolding encode_inode
encode_inode-IsBlock i v =
    let words = put_u32s-IsByte i.blocks in
    let tail = put_u32 i.size ++ put_u32s i.blocks in
    (
      omega (
        arith,
        length-append i.owner tail,
        length-append (put_u32 i.size) (put_u32s i.blocks),
        length-put_u32 i.size,
        words.0,
        v.owner_length,
        v.blocks_length,
      ),
      (
        v.type_range,
        All-append IsByte i.owner tail v.owner_range (
            All-append IsByte (put_u32 i.size) (put_u32s i.blocks) (put_u32-IsByte i.size) words.1),
      ),
    )

entries_IsByte :
    (es : List DirEntry)
    → All IsEntry es
    → (length (encode_entries es) ≡ 64 * length es) × All IsByte (encode_entries es)
entries_IsByte [] h = unfold encode_entries in (refl, tt)
entries_IsByte (e ∷ es) h = step (entries_IsByte es h.1)
  where
    tail : List ℕ
    tail = put_u32 e.inode_block ++ encode_entries es

    step :
        (length (encode_entries es) ≡ 64 * length es) × All IsByte (encode_entries es)
        → (length (encode_entries (e ∷ es)) ≡ 64 * suc (length es))
          × All IsByte (encode_entries (e ∷ es))
    step ih =
        unfold encode_entries in
        (
          omega (
            arith,
            length-append e.name tail,
            length-append (put_u32 e.inode_block) (encode_entries es),
            length-put_u32 e.inode_block,
            ih.0,
            h.0.0,
          ),
          All-append IsByte e.name tail h.0.2 (
              All-append IsByte (put_u32 e.inode_block) (encode_entries es)
                (put_u32-IsByte e.inode_block) ih.1),
        )

-- And that of eight entries.
encode_entries-IsBlock : (es : List DirEntry) → IsEntries es → IsBlock (encode_entries es)
encode_entries-IsBlock es v =
    let both = entries_IsByte es v.each in (omega (arith, both.0, v.count), both.1)

-- The image of an inode whose fields fit their types is exactly one disk block, of 512 bytes, and the
-- inode is read back unchanged from it; what is read from any disk block is such an inode, whose image
-- is that block.
pub decode_inode-encode_inode :
    (i : Inode) (b : Block)
    → IsInode i
    → IsBlock b
    → IsBlock (encode_inode i)
      × (decode_inode (encode_inode i) ≡ i)
      × IsInode (decode_inode b)
      × (encode_inode (decode_inode b) ≡ b)
decode_inode-encode_inode i b v w = (
  encode_inode-IsBlock i v,
  inode_back i v,
  decode_inode-IsInode b w,
  encode_inode-decode_inode b w,
)

-- The image of eight directory entries whose fields fit their types is exactly one disk block, of 512
-- bytes, and the entries are read back unchanged from it; what is read from any disk block are such
-- entries, whose image is that block.
pub decode_entries-encode_entries :
    (es : List DirEntry) (b : Block)
    → IsEntries es
    → IsBlock b
    → IsBlock (encode_entries es)
      × (decode_entries (encode_entries es) ≡ es)
      × IsEntries (decode_entries b)
      × (encode_entries (decode_entries b) ≡ b)
decode_entries-encode_entries es b v w = (
  encode_entries-IsBlock es v,
  entries_back es v,
  decode_entries-IsEntries b w,
  encode_entries-decode_entries b w,
)
