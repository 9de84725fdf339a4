-- ===== src/FileServer/Directory/Search.antt =====
-- What `check_existance` finds, and which empty entry it reports.
use eecs.Base.{
  ℕ, fun_ext, zero, suc, ◌≡◌, refl, sym, ap, subst, ◌∙◌, ◌≢◌, ◌↔◌, ◌⊎◌, inl, inr, Bool, true, false,
  ◌&&◌, Option, none, some, List, [], ◌∷◌, drop, get_elem?, All, arith, bytes_eq_iff, c_str, ◌==◌,
  ==_iff, Bool-cases,
}
use eecs.FileServer.Layout.{DirEntry}
use eecs.FileServer.Directory.{Scan, no_block, copy_out, is_some, is_hit, miss, scan_entries}

-- The entry is in use and has the name.
abbrev pub IsHit : List ℕ → DirEntry → Type 0
IsHit name e = (e.inode_block ≢ 0) × (c_str e.name ≡ name)

pub is_hit_iff : (name : List ℕ) (e : DirEntry) → (is_hit name e ≡ true) ↔ IsHit name e
is_hit_iff name e = ground (arith, bytes_eq_iff (c_str e.name) name)

pub get_elem?-drop {ℓ} :
    {A : Type ℓ} (j : ℕ) (xs ys : List A) (y : A)
    → drop j xs ≡ y ∷ ys
    → (get_elem? xs j ≡ some y) × (drop (suc j) xs ≡ ys)
get_elem?-drop zero [] ys y e = cc
get_elem?-drop zero (x ∷ xs) ys y e = (cc, cc)
get_elem?-drop (suc j) [] ys y e = cc
get_elem?-drop (suc j) (x ∷ xs) ys y e = get_elem?-drop j xs ys y e

-- The loop has returned with the entry at `index`.
pub record HitAt (name : List ℕ) (i : ℕ) (entries : List DirEntry) (r r' : Scan) : Type 0 where
  pub index : ℕ
  pub entry : DirEntry
  pub place : get_elem? entries index ≡ some entry
  pub is_it : is_hit name entry ≡ true
  pub inode_block : r'.result.inode_block ≡ entry.inode_block
  pub valid : r'.result.valid ≡ true
  pub block_index : r'.result.first_empty_block ≡ i
  pub entry_index : r'.result.first_empty_entry_index ≡ index
  pub parent : r'.result.parent_inode_block ≡ r.result.parent_inode_block
  pub buffer : r'.output_entries ≡ copy_out r.output_entries entries

-- The loop has run over the entries `es` without a hit: it has noted an unused entry of the block,
-- or it had noted one before, or all of them are used.
abbrev pub IsUsed : DirEntry → Type 0
IsUsed e = e.inode_block ≢ 0

-- The scan reports an unused entry of the block, and the buffer holds that block's entries.
abbrev pub Noted : ℕ → List DirEntry → Scan → Type 0
Noted block entries r =
    (r.result.first_empty_block ≡ block)
    × (r.output_entries ≡ some entries)
    × (e : DirEntry) × (get_elem? entries r.result.first_empty_entry_index ≡ some e)
    × (e.inode_block ≡ 0)

pub record MissAt (name : List ℕ) (block : ℕ) (entries es : List DirEntry) (r r' : Scan)
    : Type 0 where
  pub none_is_it : All (λ e. is_hit name e ≡ false) es
  pub valid : r'.result.valid ≡ r.result.valid
  pub parent : r'.result.parent_inode_block ≡ r.result.parent_inode_block
  pub buffer : copy_out r'.output_entries ≡ copy_out r.output_entries
  pub kept : r.result.first_empty_block ≢ no_block → r' ≡ r
  pub noted :
      r.result.first_empty_block ≡ no_block
      → is_some r.output_entries ≡ true
      → ((r' ≡ r) × All IsUsed es) ⊎ Noted block entries r'

abbrev pub Scanned : List ℕ → ℕ → ℕ → List DirEntry → List DirEntry → Scan → Scan × Bool → Type 0
Scanned name i block entries es r (r', true) = HitAt name i entries r r'
Scanned name i block entries es r (r', false) = MissAt name block entries es r r'

-- One entry that is not the one looked for.
module _ (name : List ℕ) (block : ℕ) (entries : List DirEntry) (j : ℕ) (e : DirEntry) where
  miss-MissAt :
      (r : Scan)
      → get_elem? entries j ≡ some e
      → is_hit name e ≡ false
      → MissAt name block entries (e ∷ []) r (miss block j entries e r)
  miss-MissAt r at h = elim (Bool-cases test) [
    | inl yes' ↦ rw yes' (record {
      none_is_it = (h, tt);
      valid = refl;
      parent = refl;
      buffer = ground (arith, fun_ext (λ (es : List DirEntry). copy_twice r.output_entries es));
      kept = λ k. absurd (ground arith);
      noted = λ full out. inr (refl, ground arith, e, at, ground arith);
    })
    | inr no' ↦ rw no' (record {
      none_is_it = (h, tt);
      valid = refl;
      parent = refl;
      buffer = refl;
      kept = λ k. refl;
      noted = λ full out. inl (refl, (ground arith, tt));
    })
  ]
    where
      test : Bool
      test =
          is_some r.output_entries && (e.inode_block == 0 && r.result.first_empty_block == no_block)

      copy_twice :
          (o : Option (List DirEntry)) (es : List DirEntry)
          → copy_out (copy_out o entries) es ≡ copy_out o es
      copy_twice none es = refl
      copy_twice (some o) es = refl

module _ {name : List ℕ} {block : ℕ} {entries : List DirEntry} {e : DirEntry}
    {es : List DirEntry} where
  MissAt-cons :
      {r r' r'' : Scan}
      → MissAt name block entries (e ∷ []) r r'
      → MissAt name block entries es r' r''
      → MissAt name block entries (e ∷ es) r r''
  MissAt-cons {r} {r'} {r''} a b = record {
    none_is_it = (a.none_is_it.0, b.none_is_it);
    valid = b.valid ∙ a.valid;
    parent = b.parent ∙ a.parent;
    buffer = b.buffer ∙ a.buffer;
    kept = λ k.
        b.kept (subst (λ x. x.result.first_empty_block ≢ no_block) (sym (a.kept k)) k) ∙ a.kept k;
    noted = λ full out. elim (a.noted full out) [
      | inl (p, used) ↦
          elim (b.noted (ap (λ x. x.result.first_empty_block) p ∙ full)
            (ap (λ x. is_some x.output_entries) p ∙ out)) [
              | inl (q, more) ↦ inl (q ∙ p, (used.0, more))
              | inr n ↦ inr n
            ]
      | inr n ↦ elim (Bool-cases (r'.result.first_empty_block == no_block)) [
        | inl same ↦ elim (b.noted ((==_iff _ _).0 same) (ap is_some n.1)) [
          | inl (q, more) ↦ inr (subst (Noted block entries) (sym q) n)
          | inr m ↦ inr m
        ]
        | inr other ↦
            inr (subst (Noted block entries) (sym (b.kept (λ x. absurd (ground arith)))) n)
      ]
    ];
  }

-- A step without a hit, before the rest of the scan.
Scanned-cons :
    (name : List ℕ) (i block : ℕ) (entries : List DirEntry) (e : DirEntry) (es : List DirEntry)
    (r r' : Scan) (s : Scan × Bool)
    → MissAt name block entries (e ∷ []) r r'
    → Scanned name i block entries es r' s
    → Scanned name i block entries (e ∷ es) r s
Scanned-cons name i block entries e es r r' (t, true) m h = record {
  index = h.index;
  entry = h.entry;
  place = h.place;
  is_it = h.is_it;
  inode_block = h.inode_block;
  valid = h.valid;
  block_index = h.block_index;
  entry_index = h.entry_index;
  parent = h.parent ∙ m.parent;
  buffer = h.buffer ∙ ap (λ f. f entries) m.buffer;
}
Scanned-cons name i block entries e es r r' (t, false) m h = MissAt-cons m h

module _ (name : List ℕ) (i block : ℕ) (entries : List DirEntry) where
  -- The inner loop returns at the first hit, or runs to the end without one.
  pub scan_entries-Scanned :
      (j : ℕ) (es : List DirEntry) (r : Scan)
      → drop j entries ≡ es
      → Scanned name i block entries es r (scan_entries name i block entries j es r)
  unfolding scan_entries
  scan_entries-Scanned j [] r h = (record {
    none_is_it = tt;
    valid = refl;
    parent = refl;
    buffer = refl;
    kept = λ k. refl;
    noted = λ full out. inl (refl, tt);
  })
  scan_entries-Scanned j (e ∷ es) r h = step (
      scan_entries-Scanned (suc j) es (miss block j entries e r)
        (get_elem?-drop j entries es e h).1)
    where
      step :
          Scanned name i block entries es
            (miss block j entries e r)
            (scan_entries name i block entries (suc j) es (miss block j entries e r))
          → Scanned name i block entries (e ∷ es) r (scan_entries name i block entries j (e ∷ es) r)
      step ih = elim (Bool-cases (is_hit name e)) [
        | inl yes' ↦
            rw (yes', scan_entries)
              (record {
                index = j;
                entry = e;
                place = (get_elem?-drop j entries es e h).0;
                is_it = yes';
                inode_block = refl;
                valid = refl;
                block_index = refl;
                entry_index = refl;
                parent = refl;
                buffer = refl;
              })
        | inr no' ↦
            rw (no', scan_entries)
              (Scanned-cons name i block entries e es r (miss block j entries e r) _
                (miss-MissAt name block entries j e r (get_elem?-drop j entries es e h).0 no') ih)
      ]
