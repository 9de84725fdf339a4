-- ===== src/FileServer/Directory/Blocks.antt =====
-- The search over all blocks of a directory, and `check_existance` itself.
use eecs.Base.{
  ℕ, suc, ◌+◌, ◌≡◌, refl, sym, ap, subst, ◌∙◌, ◌≢◌, ◌⊎◌, inl, inr, Bool, true, false, Option, some,
  List, [], ◌∷◌, get_elem?, All, arith, ◌==◌, ==_iff, Bool-cases,
}
use eecs.FileServer.Layout.{Inode, DirEntry, decode_entries}
use eecs.FileServer.State.{Disk}
use eecs.FileServer.Directory.{
  TargetInode, Scan, no_block, copy_out, is_some, is_hit, scan_entries, unless_found, scan_blocks,
  used_blocks, check_existance,
}
use eecs.FileServer.Directory.Search.{MissAt, Noted, IsUsed, Scanned, scan_entries-Scanned}

-- The search has ended at an entry with the name: `index` is the place of its block.
pub record Found (disk : Disk) (name blocks : List ℕ) (i : ℕ) (r r' : Scan) : Type 0 where
  pub index : ℕ
  pub block : ℕ
  pub block_place : get_elem? blocks index ≡ some block
  pub entry_index : ℕ
  pub entry : DirEntry
  pub entry_place : get_elem? (decode_entries (disk block)) entry_index ≡ some entry
  pub is_it : is_hit name entry ≡ true
  pub valid : r'.result.valid ≡ true
  pub inode_block : r'.result.inode_block ≡ entry.inode_block
  pub first_empty_block : r'.result.first_empty_block ≡ i + index
  pub first_empty_entry_index : r'.result.first_empty_entry_index ≡ entry_index
  pub parent : r'.result.parent_inode_block ≡ r.result.parent_inode_block
  pub buffer : r'.output_entries ≡ copy_out r.output_entries (decode_entries (disk block))

-- No entry has the name, and a caller with a buffer learns of an unused entry if there is one.
pub record Missing (disk : Disk) (name blocks : List ℕ) (r r' : Scan) : Type 0 where
  pub none_is_it : All (λ b. All (λ e. is_hit name e ≡ false) (decode_entries (disk b))) blocks
  pub valid : r'.result.valid ≡ r.result.valid
  pub parent : r'.result.parent_inode_block ≡ r.result.parent_inode_block
  pub buffer : copy_out r'.output_entries ≡ copy_out r.output_entries
  pub kept : r.result.first_empty_block ≢ no_block → r' ≡ r
  pub noted :
      r.result.first_empty_block ≡ no_block
      → is_some r.output_entries ≡ true
      → ((r' ≡ r) × All (λ b. All IsUsed (decode_entries (disk b))) blocks)
        ⊎ ((index : ℕ) × (block : ℕ) × (get_elem? blocks index ≡ some block)
            × Noted block (decode_entries (disk block)) r')

abbrev pub Searched : Disk → List ℕ → List ℕ → ℕ → Scan → Scan → Type 0
Searched disk name blocks i r r' = Found disk name blocks i r r' ⊎ Missing disk name blocks r r'

module _ {disk : Disk} {name : List ℕ} {b : ℕ} {bs : List ℕ} {r r' r'' : Scan} where
  Found-later :
      (i : ℕ)
      → MissAt name b (decode_entries (disk b)) (decode_entries (disk b)) r r'
      → Found disk name bs (suc i) r' r''
      → Found disk name (b ∷ bs) i r r''
  Found-later i m f = record {
    index = suc f.index;
    block = f.block;
    block_place = f.block_place;
    entry_index = f.entry_index;
    entry = f.entry;
    entry_place = f.entry_place;
    is_it = f.is_it;
    valid = f.valid;
    inode_block = f.inode_block;
    first_empty_block = omega (arith, f.first_empty_block);
    first_empty_entry_index = f.first_empty_entry_index;
    parent = f.parent ∙ m.parent;
    buffer = f.buffer ∙ ap (λ g. g (decode_entries (disk f.block))) m.buffer;
  }

  Missing-later :
      MissAt name b (decode_entries (disk b)) (decode_entries (disk b)) r r'
      → Missing disk name bs r' r''
      → Missing disk name (b ∷ bs) r r''
  Missing-later m f = record {
    none_is_it = (m.none_is_it, f.none_is_it);
    valid = f.valid ∙ m.valid;
    parent = f.parent ∙ m.parent;
    buffer = f.buffer ∙ m.buffer;
    kept = λ k.
        f.kept (subst (λ x. x.result.first_empty_block ≢ no_block) (sym (m.kept k)) k) ∙ m.kept k;
    noted = λ full out. elim (m.noted full out) [
      | inl (p, used) ↦
          elim (f.noted (ap (λ x. x.result.first_empty_block) p ∙ full)
            (ap (λ x. is_some x.output_entries) p ∙ out)) [
              | inl (q, more) ↦ inl (q ∙ p, (used, more))
              | inr (k, c, at, n) ↦ inr (suc k, c, at, n)
            ]
      | inr n ↦ elim (Bool-cases (r'.result.first_empty_block == no_block)) [
        | inl same ↦ elim (f.noted ((==_iff _ _).0 same) (ap is_some n.1)) [
          | inl (q, more) ↦ inr (0, b, refl, subst (Noted b (decode_entries (disk b))) (sym q) n)
          | inr (k, c, at, l) ↦ inr (suc k, c, at, l)
        ]
        | inr other ↦ inr (
          0,
          b,
          refl,
          subst (Noted b (decode_entries (disk b))) (sym (f.kept (λ x. absurd (ground arith)))) n,
        )
      ]
    ];
  }

scan_blocks-Searched :
    (disk : Disk) (name : List ℕ) (i : ℕ) (blocks : List ℕ) (r : Scan)
    → Searched disk name blocks i r (scan_blocks disk name i blocks r)
unfolding scan_blocks
scan_blocks-Searched disk name i [] r = inr (record {
  none_is_it = tt;
  valid = refl;
  parent = refl;
  buffer = refl;
  kept = λ k. refl;
  noted = λ full out. inl (refl, tt);
})
scan_blocks-Searched disk name i (b ∷ bs) r =
    step (scan_entries name i b (decode_entries (disk b)) 0 (decode_entries (disk b)) r)
      (scan_entries-Scanned name i b (decode_entries (disk b)) 0 (decode_entries (disk b)) r refl)
      (λ r'. scan_blocks-Searched disk name (suc i) bs r')
  where
    step :
        (s : Scan × Bool)
        → Scanned name i b (decode_entries (disk b)) (decode_entries (disk b)) r s
        → ((r' : Scan) → Searched disk name bs (suc i) r' (scan_blocks disk name (suc i) bs r'))
        → Searched disk name
            (b ∷ bs)
            i
            r
            (unless_found s (λ r'. scan_blocks disk name (suc i) bs r'))
    step (r', true) h ih = inl (record {
      index = 0;
      block = b;
      block_place = refl;
      entry_index = h.index;
      entry = h.entry;
      entry_place = h.place;
      is_it = h.is_it;
      valid = h.valid;
      inode_block = h.inode_block;
      first_empty_block = omega (arith, h.block_index);
      first_empty_entry_index = h.entry_index;
      parent = h.parent;
      buffer = h.buffer;
    })
    step (r', false) m ih = elim (ih r') [
      | inl f ↦ inl (Found-later i m f)
      | inr f ↦ inr (Missing-later m f)
    ]

-- `check_existance` either finds an entry in use with the name, and reports its inode, the place of
-- its block among the directory's and its place in that block, or no such entry exists. In the
-- second case a caller with a buffer is told of an unused entry and given its block's entries, or
-- every entry of the directory is in use.
pub check_existance-Searched :
    (disk : Disk) (result : TargetInode) (inode : Inode) (name : List ℕ)
    (out : Option (List DirEntry))
    → Searched disk name
        (used_blocks inode)
        0
        (record { result = record result { valid = false }; output_entries = out })
        (check_existance disk result inode name out)
unfolding check_existance
check_existance-Searched disk result inode name out =
    scan_blocks-Searched disk name 0 (used_blocks inode) _
