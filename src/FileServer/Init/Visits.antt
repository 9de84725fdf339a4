-- ===== src/FileServer/Init/Visits.antt =====
-- What the visit of one directory block takes from the set of blocks and adds to the queue.
use eecs.Base.{
  Memᴰ, ℕ, ◌≡◌, refl, sym, ap, subst, ◌∙◌, ◌↔◌, inl, inr, false, List, [], ◌∷◌, ◌++◌, append-nil,
  append_assoc, ◌==◌, arith, Bool-cases,
}
use mathlib.Core.List.Memᴰ
use eecs.FileServer.Layout.{Inode, DirEntry, decode_inode}
use eecs.FileServer.State.{Disk}
use eecs.FileServer.Directory.{used_blocks, dir_type, file_type}
use eecs.FileServer.Init.{erase, erase_all, visit_inode, visit_entry, visit_entries}
use eecs.FileServer.Init.Reach.{
  inode_children, entry_children, entries_children, InodeUses, EntryUses, EntriesUse,
}

-- `left` is `all` without the blocks of `P`.
abbrev pub Without : (ℕ → Type 0) → List ℕ → List ℕ → Type 0
Without P all left = (x : ℕ) → Memᴰ x left ↔ (Memᴰ x all × ¬ P x)

pub erase-Without : (b : ℕ) (all : List ℕ) → Without (λ x. x ≡ b) all (erase b all)
unfolding erase
erase-Without b [] x = (λ m. absurd (Memᴰ.not-nil m), λ m. m.0)
erase-Without b (y ∷ all) x =
    let ih = erase-Without b all x in
    elim (Bool-cases (y == b)) [
      | inl same ↦ rw same (
        λ m. (Memᴰ.tail (ih.0 m).0, (ih.0 m).1),
        λ m. elim m.0 [
          | Memᴰ.head e ↦ absurd (m.1 (ground (arith, e, same)))
          | Memᴰ.tail k ↦ ih.1 (k, m.1)
        ],
      )
      | inr apart ↦ rw apart (
        λ m. elim m [
          | Memᴰ.head e ↦ (Memᴰ.head e, λ q. absurd (ground (arith, e, q, apart)))
          | Memᴰ.tail k ↦ (Memᴰ.tail (ih.0 k).0, (ih.0 k).1)
        ],
        λ m. elim m.0 [ Memᴰ.head e ↦ Memᴰ.head e | Memᴰ.tail k ↦ Memᴰ.tail (ih.1 (k, m.1)) ],
      )
    ]

erase_all-Without : (bs all : List ℕ) → Without (λ x. Memᴰ x bs) all (erase_all bs all)
unfolding erase_all
erase_all-Without [] all x = (λ m. (m, λ k. elim k [ ]), λ m. m.0)
erase_all-Without (b ∷ bs) all x =
    let first = erase-Without b all x in
    let rest = erase_all-Without bs (erase b all) x in
    (
      λ m.
          let (k, n) = rest.0 m in
          let (k', n') = first.0 k in (k', λ h. elim h [ Memᴰ.head e ↦ n' e | Memᴰ.tail q ↦ n q ]),
      λ m. rest.1 (first.1 (m.0, λ e. m.1 (Memᴰ.head e)), λ q. m.1 (Memᴰ.tail q)),
    )

-- A visit takes the blocks of `P` and adds `more` to the queue.
pub record Visit (P : ℕ → Type 0) (more : List ℕ) (before after : List ℕ × List ℕ) : Type 0 where
  pub taken : Without P before.0 after.0
  pub queued : after.1 ≡ before.1 ++ more

visit_inode-Visit :
    (node : Inode) (block : ℕ) (s : List ℕ × List ℕ)
    → Visit (InodeUses node block) (inode_children node) s (visit_inode node block s)
unfolding visit_inode inode_children
visit_inode-Visit node block (all, queue) = elim (Bool-cases (node.type == file_type)) [
  | inl file ↦ rw file (record {
    taken = λ x.
        let one = erase-Without block all x in
        let rest = erase_all-Without (used_blocks node) (erase block all) x in
        (
          λ m.
              let (k, n) = rest.0 m in
              ((one.0 k).0, λ u. elim u [ inl e ↦ (one.0 k).1 e | inr (_, q) ↦ n q ]),
          λ m. rest.1 (one.1 (m.0, λ e. m.1 (inl e)), λ q. m.1 (inr (ground (arith, file), q))),
        );
    queued = sym (append-nil queue);
  })
  | inr other ↦ elim (Bool-cases (node.type == dir_type)) [
    | inl dir ↦ rw (other, dir) (record { taken = taken other; queued = refl })
    | inr nodir ↦
        rw (other, nodir) (record { taken = taken other; queued = sym (append-nil queue) })
  ]
]
  where
    taken : (node.type == file_type) ≡ false → Without (InodeUses node block) all (erase block all)
    taken other x =
        let one = erase-Without block all x in
        (
          λ m. (
            (one.0 m).0,
            λ u. elim u [ inl e ↦ (one.0 m).1 e | inr (t, _) ↦ absurd (ground (arith, t, other)) ],
          ),
          λ m. one.1 (m.0, λ e. m.1 (inl e)),
        )

visit_entry-Visit :
    (disk : Disk) (e : DirEntry) (s : List ℕ × List ℕ)
    → Visit (EntryUses disk e) (entry_children disk e) s (visit_entry disk e s)
unfolding visit_entry entry_children
visit_entry-Visit disk e s = elim (Bool-cases (e.inode_block == 0)) [
  | inl unused ↦ rw unused (record {
    taken = λ x. (λ m. (m, λ u. u.0 (ground (arith, unused))), λ m. m.0);
    queued = sym (append-nil s.1);
  })
  | inr used ↦
      let v = visit_inode-Visit (decode_inode (disk e.inode_block)) e.inode_block s in
      rw used (record {
        taken = λ x. (
          λ m. (((v.taken x).0 m).0, λ u. ((v.taken x).0 m).1 u.1),
          λ m. (v.taken x).1 (m.0, λ u. m.1 (ground (arith, used), u)),
        );
        queued = v.queued;
      })
]

pub visit_entries-Visit :
    (disk : Disk) (es : List DirEntry) (s : List ℕ × List ℕ)
    → Visit (EntriesUse disk es) (entries_children disk es) s (visit_entries disk es s)
unfolding visit_entries entries_children
visit_entries-Visit disk [] s = record {
  taken = λ x. (λ m. (m, λ u. elim (u.1) [ ]), λ m. m.0);
  queued = sym (append-nil s.1);
}
visit_entries-Visit disk (e ∷ es) s =
    let one = visit_entry-Visit disk e s in
    let rest = visit_entries-Visit disk es (visit_entry disk e s) in
    record {
      taken = λ x. (
        λ m.
            let (k, n) = (rest.taken x).0 m in
            let (k', n') = (one.taken x).0 k in (k', λ u. split x n' n u),
        λ m. (rest.taken x).1 (
          (one.taken x).1 (m.0, λ u. m.1 (e, Memᴰ.head refl, u)),
          λ u. m.1 (u.0, Memᴰ.tail u.1, u.2),
        ),
      );
      queued =
          rest.queued
          ∙ ap (λ q. q ++ entries_children disk es) one.queued
          ∙ append_assoc s.1 (entry_children disk e) (entries_children disk es);
    }
  where
    split : (x : ℕ) → ¬ EntryUses disk e x → ¬ EntriesUse disk es x → ¬ EntriesUse disk (e ∷ es) x
    split x n' n (d, Memᴰ.head q, u) = n' (subst (λ y. EntryUses disk y x) q u)
    split x n' n (d, Memᴰ.tail k, u) = n (d, k, u)
