-- ===== src/FileServer/Init/Levels.antt =====
-- One level of the directory tree: what a directory block uses.
use eecs.Base.{
  Memᴰ, ℕ, ◌≡◌, ◌≢◌, refl, sym, subst, ◌↔◌, ◌⊎◌, inl, inr, List, [], ◌∷◌, ◌++◌, ◌==◌, arith,
  Bool-cases,
}
use mathlib.Core.List.Memᴰ
use eecs.FileServer.Layout.{DirEntry, decode_inode, decode_entries}
use eecs.FileServer.State.{Disk}
use eecs.FileServer.Directory.{dir_type, file_type}
use eecs.FileServer.Init.Reach.{
  Lists, HasBlock, Uses, itself, its_inode, contents, below, UsedBy, inode_children, entry_children,
  entries_children, children, EntriesUse,
}

-- The entry leads to a directory that has the block `c`.
abbrev LeadsTo : Disk → DirEntry → ℕ → Type 0
LeadsTo disk e c = (e.inode_block ≢ 0) × HasBlock disk dir_type e.inode_block c

entry_children-LeadsTo :
    (disk : Disk) (e : DirEntry) (c : ℕ) → Memᴰ c (entry_children disk e) ↔ LeadsTo disk e c
unfolding entry_children inode_children
entry_children-LeadsTo disk e c = elim (Bool-cases (e.inode_block == 0)) [
  | inl unused ↦ rw unused (λ m. elim m [ ], λ u. absurd (u.0 (ground (arith, unused))))
  | inr used ↦ elim (Bool-cases ((decode_inode (disk e.inode_block)).type == file_type)) [
    | inl file ↦ rw (used, file) (λ m. elim m [ ], λ u. absurd (ground (arith, u.1.0, file)))
    | inr other ↦ elim (Bool-cases ((decode_inode (disk e.inode_block)).type == dir_type)) [
      | inl dir ↦
          rw (used, other, dir) (λ m. (ground (arith, used), (ground (arith, dir), m)), λ u. u.1.1)
      | inr nodir ↦
          rw (used, other, nodir) (λ m. elim m [ ], λ u. absurd (ground (arith, u.1.0, nodir)))
    ]
  ]
]

entries_children-LeadsTo :
    (disk : Disk) (es : List DirEntry) (c : ℕ)
    → Memᴰ c (entries_children disk es) ↔ ((e : DirEntry) × Memᴰ e es × LeadsTo disk e c)
unfolding entries_children
entries_children-LeadsTo disk [] c = (λ m. elim m [ ], λ u. elim (u.1) [ ])
entries_children-LeadsTo disk (e ∷ es) c =
    let one = entry_children-LeadsTo disk e c in
    let rest = entries_children-LeadsTo disk es c in
    (
      λ m. elim (Memᴰ.append_cases (entry_children disk e) m) [
        | inl k ↦ (e, Memᴰ.head refl, one.0 k)
        | inr k ↦ let (d, q, u) = rest.0 k in (d, Memᴰ.tail q, u)
      ],
      λ u. join one.1 rest.1 u,
    )
  where
    join :
        (LeadsTo disk e c → Memᴰ c (entry_children disk e))
        → ((d : DirEntry) × Memᴰ d es × LeadsTo disk d c → Memᴰ c (entries_children disk es))
        → (d : DirEntry) × Memᴰ d (e ∷ es) × LeadsTo disk d c
        → Memᴰ c (entry_children disk e ++ entries_children disk es)
    join f g (d, Memᴰ.head q, u) = Memᴰ.append_left _ (f (subst (λ y. LeadsTo disk y c) q u))
    join f g (d, Memᴰ.tail k, u) = Memᴰ.append_right _ (g (d, k, u))

-- One level of the tree.
abbrev pub UsesHere : Disk → ℕ → ℕ → Type 0
UsesHere disk b x =
    (x ≡ b) ⊎ EntriesUse disk (decode_entries (disk b)) x ⊎ UsedBy disk (children disk b) x

pub Lists-children :
    (disk : Disk) (b c : ℕ) {i : ℕ}
    → Lists disk b i
    → HasBlock disk dir_type i c
    → Memᴰ c (children disk b)
Lists-children disk b c l h = (entries_children-LeadsTo disk (decode_entries (disk b)) c).1 (
  l.entry,
  l.member,
  (
    subst (λ k. k ≢ 0) (sym l.target) l.in_use,
    subst (λ k. HasBlock disk dir_type k c) (sym l.target) h,
  ),
)

pub Uses-Here : (disk : Disk) (b x : ℕ) → Uses disk b x → UsesHere disk b x
Uses-Here disk b x itself = inl refl
Uses-Here disk b x (its_inode l) =
    inr (inl (l.entry, l.member, (subst (λ k. k ≢ 0) (sym l.target) l.in_use, inl (sym l.target))))
Uses-Here disk b x (contents l h) = inr (
    inl (
      l.entry,
      l.member,
      (
        subst (λ k. k ≢ 0) (sym l.target) l.in_use,
        inr (subst (λ k. HasBlock disk file_type k x) (sym l.target) h),
      ),
    ))
Uses-Here disk b x (below {c} l h u) = inr (inr (c, Lists-children disk b c l h, u))

pub child-Lists :
    (disk : Disk) (b c : ℕ)
    → Memᴰ c (children disk b)
    → (i : ℕ) × Lists disk b i × HasBlock disk dir_type i c
child-Lists disk b c m =
    let (e, k, u) = (entries_children-LeadsTo disk (decode_entries (disk b)) c).0 m in
    (e.inode_block, record { entry = e; member = k; target = refl; in_use = u.0 }, u.1)

pub Here-Uses : (disk : Disk) (b x : ℕ) → UsesHere disk b x → Uses disk b x
Here-Uses disk b x (inl e) = subst (Uses disk b) (sym e) itself
Here-Uses disk b x (inr (inl (e, k, u))) = elim (u.1) [
  | inl q ↦ subst (Uses disk b) (sym q) (its_inode lists)
  | inr h ↦ contents lists h
]
  where
    lists : Lists disk b e.inode_block
    lists = record { entry = e; member = k; target = refl; in_use = u.0 }
Here-Uses disk b x (inr (inr (c, k, u))) = let (i, l, h) = child-Lists disk b c k in below l h u
