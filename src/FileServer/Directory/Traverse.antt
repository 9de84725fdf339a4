-- ===== src/FileServer/Directory/Traverse.antt =====
-- `traverse_dir`, and the paths through the directories of a disk.
use eecs.Base.{
  ℕ, ◌≡◌, refl, sym, subst, ◌∙◌, ◌⊎◌, inl, inr, true, false, not, ◌||◌, Option, none, some, List,
  [], ◌∷◌, get_elem?, All, All-get_elem?, arith, bytes_eq, bytes_eq_iff, c_str, ◌==◌, Bool-cases,
}
use eecs.FileServer.Layout.{Inode, DirEntry, decode_entries, decode_inode}
use eecs.FileServer.State.{Disk, shared, unshared, Server, emit, Outcome, done, M}
use eecs.FileServer.State.Locks.{Holds, reading, Holds-next}
use eecs.FileServer.Directory.{
  TargetInode, new_target, used_blocks, check_existance, dir_type, is_hit, descend, traverse_loop,
  traverse_dir,
}
use eecs.FileServer.Directory.Search.{IsHit, is_hit_iff}
use eecs.FileServer.Directory.Blocks.{check_existance-Searched}

-- The directory with its inode in block `d` has an entry of that name for the inode block `c`.
pub record HasEntry (disk : Disk) (d : ℕ) (name : List ℕ) (c : ℕ) : Type 0 where
  pub index : ℕ
  pub block : ℕ
  pub block_place : get_elem? (used_blocks (decode_inode (disk d))) index ≡ some block
  pub entry_index : ℕ
  pub entry : DirEntry
  pub entry_place : get_elem? (decode_entries (disk block)) entry_index ≡ some entry
  pub is_hit : IsHit name entry
  pub target : entry.inode_block ≡ c

-- It has none of that name.
abbrev pub HasNone : Disk → ℕ → List ℕ → Type 0
HasNone disk d name =
    All (λ b. All (λ e. is_hit name e ≡ false) (decode_entries (disk b)))
      (used_blocks (decode_inode (disk d)))

-- Block `c` holds the inode of a directory of the user.
abbrev pub IsOwnDir : Disk → List ℕ → ℕ → Type 0
IsOwnDir disk username c =
    (c_str (decode_inode (disk c)).owner ≡ username) × ((decode_inode (disk c)).type ≡ dir_type)

-- Block `d` holds the inode of a directory of the tree: the root, or one with an entry in such a one.
pub data InTree (disk : Disk) : ℕ → Type 0 where
  at_root : InTree disk 0
  below :
      {d c : ℕ} {name : List ℕ}
      → InTree disk d
      → HasEntry disk d name c
      → (decode_inode (disk c)).type ≡ dir_type
      → InTree disk c

-- The path leads from directory `d` to the inode in block `t`, through directories of the user.
pub data Resolves (disk : Disk) (username : List ℕ) : ℕ → List (List ℕ) → ℕ → Type 0 where
  last :
      {d : ℕ} {name : List ℕ} {t : ℕ}
      → HasEntry disk d name t
      → Resolves disk username d (name ∷ []) t
  through :
      {d : ℕ} {name next : List ℕ} {rest : List (List ℕ)} {c t : ℕ}
      → HasEntry disk d name c
      → IsOwnDir disk username c
      → Resolves disk username c (next ∷ rest) t
      → Resolves disk username d (name ∷ next ∷ rest) t

-- The path breaks off: a name has no entry, or leads through something else than such a directory.
pub data Breaks (disk : Disk) (username : List ℕ) : ℕ → List (List ℕ) → Type 0 where
  absent :
      {d : ℕ} {name : List ℕ} {rest : List (List ℕ)}
      → HasNone disk d name
      → Breaks disk username d (name ∷ rest)
  denied :
      {d : ℕ} {name next : List ℕ} {rest : List (List ℕ)} {c : ℕ}
      → HasEntry disk d name c
      → ¬ IsOwnDir disk username c
      → Breaks disk username d (name ∷ next ∷ rest)
  later :
      {d : ℕ} {name next : List ℕ} {rest : List (List ℕ)} {c : ℕ}
      → HasEntry disk d name c
      → IsOwnDir disk username c
      → Breaks disk username c (next ∷ rest)
      → Breaks disk username d (name ∷ next ∷ rest)

-- What the search in one directory returns, with or without a buffer.
module _ (disk : Disk) (d : ℕ) (name : List ℕ) (result : TargetInode)
    (out : Option (List DirEntry)) where
  abbrev pub seek_in : TargetInode
  seek_in = (check_existance disk result (decode_inode (disk d)) name out).result

  pub seek_cases :
      ((seek_in.valid ≡ true)
        × HasEntry disk d name seek_in.inode_block
        × (seek_in.parent_inode_block ≡ result.parent_inode_block))
      ⊎ ((seek_in.valid ≡ false)
          × HasNone disk d name
          × (seek_in.parent_inode_block ≡ result.parent_inode_block))
  seek_cases = elim (check_existance-Searched disk result (decode_inode (disk d)) name out) [
    | inl f ↦ inl (
      f.valid,
      record {
        index = f.index;
        block = f.block;
        block_place = f.block_place;
        entry_index = f.entry_index;
        entry = f.entry;
        entry_place = f.entry_place;
        is_hit = (is_hit_iff name f.entry).0 f.is_it;
        target = sym f.inode_block;
      },
      f.parent,
    )
    | inr m ↦ inr (m.valid, m.none_is_it, m.parent)
  ]

abbrev pub seek : Disk → ℕ → List ℕ → TargetInode → TargetInode
seek disk d name result = seek_in disk d name result none

-- A finished traversal from directory `d`, which started in `s` with the lock of `d`.
pub record Traversed (username : List ℕ) (d : ℕ) (names : List (List ℕ)) (s : Server)
    (t : TargetInode) (s' : Server) : Type 0 where
  pub disk : s'.disk ≡ s.disk
  pub free_blocks : s'.free_blocks ≡ s.free_blocks
  pub locks : Holds (reading d) false s.log → Holds (reading t.parent_inode_block) false s'.log
  pub resolves : t.valid ≡ true → Resolves s.disk username d names t.inode_block
  pub breaks : t.valid ≡ false → Breaks s.disk username d names
  pub within : InTree s.disk d → t.valid ≡ true → InTree s.disk t.parent_inode_block
  pub entry :
      t.valid ≡ true → (name : List ℕ) × HasEntry s.disk t.parent_inode_block name t.inode_block

IsOwnDir-cases :
    (disk : Disk) (username : List ℕ) (c : ℕ)
    → let child = decode_inode (disk c) in
      let test = not (bytes_eq (c_str child.owner) username) || not (child.type == dir_type) in
      ((test ≡ true) × ¬ IsOwnDir disk username c) ⊎ ((test ≡ false) × IsOwnDir disk username c)
IsOwnDir-cases disk username c =
    ground (arith, bytes_eq_iff (c_str (decode_inode (disk c)).owner) username)

-- The traversal that ends in the first directory.
module _ {username : List ℕ} {d : ℕ} {name : List ℕ} {s : Server} {t : TargetInode}
    (p : t.parent_inode_block ≡ d) where
  Traversed-here :
      t.valid ≡ true → HasEntry s.disk d name t.inode_block → Traversed username d (name ∷ []) s t s
  Traversed-here v e = record {
    disk = refl;
    free_blocks = refl;
    locks = λ h. subst (λ k. Holds (reading k) false s.log) (sym p) h;
    resolves = λ _. last e;
    breaks = λ w. cc;
    within = λ i _. subst (InTree s.disk) (sym p) i;
    entry = λ _. (name, subst (λ k. HasEntry s.disk k name t.inode_block) (sym p) e);
  }

  Traversed-absent :
      {rest : List (List ℕ)}
      → t.valid ≡ false
      → HasNone s.disk d name
      → Traversed username d (name ∷ rest) s t s
  Traversed-absent v e = record {
    disk = refl;
    free_blocks = refl;
    locks = λ h. subst (λ k. Holds (reading k) false s.log) (sym p) h;
    resolves = λ w. cc;
    breaks = λ _. absent e;
    within = λ i w. cc;
    entry = λ w. cc;
  }

-- The state after one step down, from directory `d` to the inode in block `c`.
abbrev stepped : ℕ → ℕ → Server → Server
stepped d c s = emit (unshared d) (emit (shared c) s)

module _ (username : List ℕ) (d : ℕ) (found : TargetInode)
    (next : Inode → TargetInode → M TargetInode) (s : Server) where
  descend_absent : found.valid ≡ false → descend username d found next s ≡ (done found, s)
  unfolding descend
  descend_absent v = rw v refl

  descend_denied :
      found.valid ≡ true
      → ¬ IsOwnDir s.disk username found.inode_block
      → descend username d found next s ≡ (
        done (record found { parent_inode_block = found.inode_block; valid = false }),
        stepped d found.inode_block s,
      )
  unfolding descend
  descend_denied v h = elim (IsOwnDir-cases s.disk username found.inode_block) [
    | inl (bad, _) ↦ rw (v, bad) refl
    | inr (_, own) ↦ absurd (h own)
  ]

  descend_next :
      found.valid ≡ true
      → IsOwnDir s.disk username found.inode_block
      → descend username d found next s
        ≡ next
            (decode_inode (s.disk found.inode_block))
            (record found { parent_inode_block = found.inode_block })
            (stepped d found.inode_block s)
  unfolding descend
  descend_next v h = elim (IsOwnDir-cases s.disk username found.inode_block) [
    | inl (_, no_own) ↦ absurd (no_own h)
    | inr (good, _) ↦ rw (v, good) refl
  ]

abbrev Arrives : List ℕ → ℕ → List (List ℕ) → Server → Outcome TargetInode × Server → Type 0
Arrives username d names s r =
    (t : TargetInode) × (s' : Server) × (r ≡ (done t, s')) × Traversed username d names s t s'

traverse_loop-Traversed :
    (username : List ℕ) (d : ℕ) (result : TargetInode) (name : List ℕ) (rest : List (List ℕ))
    (s : Server)
    → result.parent_inode_block ≡ d
    → Arrives username d
        (name ∷ rest)
        s
        (traverse_loop username d (decode_inode (s.disk d)) result (name ∷ rest) s)
traverse_loop-Traversed username d result name [] s p =
    elim (seek_cases s.disk d name result none) [
      | inl (v, e, q) ↦
          (seek s.disk d name result, s, unfold traverse_loop in refl, Traversed-here (q ∙ p) v e)
      | inr (v, e, q) ↦
          (seek s.disk d name result, s, unfold traverse_loop in refl, Traversed-absent (q ∙ p) v e)
    ]
traverse_loop-Traversed username d result name (next ∷ rest) s p =
    step (seek_cases s.disk d name result none) (
      traverse_loop-Traversed username found.inode_block here next rest
        (stepped d found.inode_block s) refl)
  where
    found : TargetInode
    found = seek s.disk d name result

    here : TargetInode
    here = record found { parent_inode_block = found.inode_block }

    go : Inode → TargetInode → M TargetInode
    go = λ child t. traverse_loop username t.inode_block child t (next ∷ rest)

    opened :
        traverse_loop username d (decode_inode (s.disk d)) result (name ∷ next ∷ rest) s
        ≡ descend username d found go s
    opened = unfold traverse_loop in refl

    step :
        ((found.valid ≡ true)
            × HasEntry s.disk d name found.inode_block
            × (found.parent_inode_block ≡ result.parent_inode_block))
          ⊎ ((found.valid ≡ false)
              × HasNone s.disk d name
              × (found.parent_inode_block ≡ result.parent_inode_block))
        → Arrives username found.inode_block
            (next ∷ rest)
            (stepped d found.inode_block s)
            (go (decode_inode (s.disk found.inode_block)) here (stepped d found.inode_block s))
        → Arrives username d
            (name ∷ next ∷ rest)
            s
            (traverse_loop username d (decode_inode (s.disk d)) result (name ∷ next ∷ rest) s)
    step (inr (v, e, q)) ih =
        (found, s, opened ∙ descend_absent username d found go s v, Traversed-absent (q ∙ p) v e)
    step (inl (v, e, q)) (t, s', eq, r) = elim (IsOwnDir-cases s.disk username found.inode_block) [
      | inl (_, not_own) ↦ (
        record here { valid = false },
        stepped d found.inode_block s,
        opened ∙ descend_denied username d found go s v not_own,
        record {
          disk = refl;
          free_blocks = refl;
          locks = λ h. Holds-next d found.inode_block h;
          resolves = λ w. cc;
          breaks = λ _. denied e not_own;
          within = λ i w. cc;
          entry = λ w. cc;
        },
      )
      | inr (_, own) ↦ (
        t,
        s',
        opened ∙ (descend_next username d found go s v own ∙ eq),
        record {
          disk = r.disk;
          free_blocks = r.free_blocks;
          locks = λ h. r.locks (Holds-next d found.inode_block h);
          resolves = λ w. through e own (r.resolves w);
          breaks = λ w. later e own (r.breaks w);
          within = λ i w. r.within (below i e own.1) w;
          entry = r.entry;
        },
      )
    ]

-- `traverse_dir` of a path that is not empty returns, with the disk and the free list as they were.
-- If its result is valid, the path leads through directories of the user to an entry, and the result
-- is that entry's inode block; the entry is in a directory of the tree, that of `parent_inode_block`.
-- If it is not valid, the path breaks off: a name has no entry, or one that is not such a directory.
-- From a state in which no lock is held it ends with one lock held, shared: that of
-- `parent_inode_block`.
pub traverse_dir-Traversed :
    (username name : List ℕ) (rest : List (List ℕ)) (s : Server)
    → (t : TargetInode) × (s' : Server) × (traverse_dir username (name ∷ rest) s ≡ (done t, s'))
      × Traversed username 0 (name ∷ rest) (emit (shared 0) s) t s'
traverse_dir-Traversed username name rest s =
    unfold traverse_dir in
    traverse_loop-Traversed username 0 (record new_target { valid = true }) name rest
      (emit (shared 0) s) refl

-- Entry names are unique in every directory of the tree.
abbrev pub UniqueEntries : Disk → Type 0
UniqueEntries disk =
    (d : ℕ) (name : List ℕ) (c c' : ℕ)
    → InTree disk d
    → HasEntry disk d name c
    → HasEntry disk d name c'
    → c ≡ c'

HasEntry-HasNone :
    (disk : Disk) (d : ℕ) (name : List ℕ) (c : ℕ) → HasEntry disk d name c → ¬ HasNone disk d name
HasEntry-HasNone disk d name c h n =
    let entries =
      All-get_elem? (λ b. All (λ e. is_hit name e ≡ false) (decode_entries (disk b))) _ h.index
        h.block n h.block_place in
    let miss =
      All-get_elem? (λ e. is_hit name e ≡ false) _ h.entry_index h.entry entries h.entry_place in
    absurd (ground (arith, (is_hit_iff name h.entry).1 h.is_hit))

module _ {disk : Disk} {username : List ℕ} (unique : UniqueEntries disk) where
  Resolves-Breaks :
      {d : ℕ} {names : List (List ℕ)} {t : ℕ}
      → InTree disk d
      → Resolves disk username d names t
      → ¬ Breaks disk username d names
  Resolves-Breaks i (last e) (absent n) = HasEntry-HasNone _ _ _ _ e n
  Resolves-Breaks i (through e own r) (absent n) = HasEntry-HasNone _ _ _ _ e n
  Resolves-Breaks i (through e own r) (denied e' not_own) =
      not_own (subst (IsOwnDir disk username) (unique _ _ _ _ i e e') own)
  Resolves-Breaks i (through {next} {rest} e own r) (later e' own' b) =
      Resolves-Breaks (below i e own.1) r
        (subst (λ c. Breaks disk username c (next ∷ rest)) (unique _ _ _ _ i e' e) b)

  Resolves-unique :
      {d : ℕ} {names : List (List ℕ)} {t t' : ℕ}
      → InTree disk d
      → Resolves disk username d names t
      → Resolves disk username d names t'
      → t ≡ t'
  Resolves-unique i (last e) (last e') = unique _ _ _ _ i e e'
  Resolves-unique {t'} i (through {next} {rest} e own r) (through e' own' r') =
      Resolves-unique (below i e own.1) r
        (subst (λ c. Resolves disk username c (next ∷ rest) t') (unique _ _ _ _ i e' e) r')

-- On a disk where entry names are unique in every directory of the tree, `traverse_dir` finds every inode that a path leads
-- to through directories of the user.
pub traverse_dir-Resolves :
    (username name : List ℕ) (rest : List (List ℕ)) (s : Server) (c : ℕ)
    → UniqueEntries s.disk
    → Resolves s.disk username 0 (name ∷ rest) c
    → (t : TargetInode) × (s' : Server) × (traverse_dir username (name ∷ rest) s ≡ (done t, s'))
      × (t.valid ≡ true)
      × (t.inode_block ≡ c)
traverse_dir-Resolves username name rest s c unique r =
    let (t, s', eq, v) = traverse_dir-Traversed username name rest s in
    elim (Bool-cases t.valid) [
      | inl ok ↦ (t, s', eq, ok, Resolves-unique unique at_root (v.resolves ok) r)
      | inr bad ↦ absurd (Resolves-Breaks unique at_root r (v.breaks bad))
    ]
