-- ===== src/FileServer/Handlers/Locks.antt =====
-- The locks that the parts of the handlers take and give back.
use eecs.Base.{
  ℕ, ◌≡◌, refl, sym, subst, ◌∙◌, ◌≢◌, ◌⊎◌, inl, inr, Bool, true, false, Option, some, List, [], ◌∷◌,
  ◌++◌, arith, ◌==◌, Bool-cases, if◌then◌else◌, leb, length,
}
use eecs.FileServer.Params.{fs_blocksize}
use eecs.FileServer.Layout.{Inode, Block, DirEntry, decode_inode}
use eecs.FileServer.State.{
  Disk, unshared, exclusive, unexclusive, free_lock, free_unlock, Server, M, ◌>>=◌, pure, leave,
  require, disk_writeblock, read_inode, get_disk, free_empty, pop_from, pop_free, push_free,
  return_empty_block, with_free_lock,
}
use eecs.FileServer.State.Locks.{
  Holds, Hold, AllFree, reading, writing, Holds-free_lock, Holds-free_unlock, Holds-root,
  Holds-both, Holds-one, writing_both,
}
use eecs.FileServer.State.Logic.{
  Ensures, Ensures-bind, Ensures-scope, Ensures-require, Ensures-read_inode, Ensures-get_disk,
}
use eecs.FileServer.Directory.{TargetInode, new_target, check_existance, traverse_dir, dir_type}
use eecs.FileServer.Directory.Traverse.{
  HasEntry, InTree, at_root, below, traverse_dir-Traversed, seek_in, seek_cases,
}
use eecs.FileServer.Common.{Stack, leave_parent, parent_ok, entries_or}
use eecs.FileServer.Handlers.{
  reserve_entry, create_locked, read_in, write_in, delete_locked, delete_in, Recv, bytes, closed,
  failed, recv_loop,
}

-- The program changes no lock, whatever it does else.
abbrev pub Keeps : {A : Type 0} → (ℕ → Hold) → Bool → M A → Type 0
Keeps h f m = Ensures (λ s. Holds h f s.log) m (λ _ s. Holds h f s.log) (λ s. Holds h f s.log)

module _ (h : ℕ → Hold) (f : Bool) where
  module _ {A B : Type 0} where
    pub Keeps-bind :
        (m : M A) (k : A → M B) → Keeps h f m → ((a : A) → Keeps h f (k a)) → Keeps h f (m >>= k)
    Keeps-bind m k a b = Ensures-bind m k a b

  module _ {A : Type 0} where
    pub Keeps-pure : (a : A) → Keeps h f (pure a)
    Keeps-pure a = record { run = λ s v. v }

    pub Keeps-leave : Keeps h f (leave {A = A})
    Keeps-leave = record { run = λ s v. v }

    pub Keeps-if :
        (b : Bool) (m n : M A) → Keeps h f m → Keeps h f n → Keeps h f (if b then m else n)
    Keeps-if true m n p q = p
    Keeps-if false m n p q = q

  pub Keeps-require : (b : Bool) → Keeps h f (require b)
  Keeps-require true = record { run = λ s v. v }
  Keeps-require false = record { run = λ s v. v }

  pub Keeps-write : (b : ℕ) (v : Block) → Keeps h f (disk_writeblock b v)
  Keeps-write b v = record { run = λ s v. v }

  pub Keeps-read : (b : ℕ) → Keeps h f (read_inode b)
  Keeps-read b = record { run = λ s v. v }

  pub Keeps-disk : Keeps h f get_disk
  Keeps-disk = record { run = λ s v. v }

  pub Keeps-push : (bs : List ℕ) → Keeps h f (push_free bs)
  Keeps-push bs = record { run = λ s v. v }

  Keeps-pop_from : (l : List ℕ) → Keeps h f (pop_from l)
  Keeps-pop_from [] = record { run = λ s v. v }
  Keeps-pop_from (b ∷ l) = record { run = λ s v. v }

  pub Keeps-pop : Keeps h f pop_free
  Keeps-pop = record { run = λ s v. (Keeps-pop_from s.free_blocks).run s v }

  pub Keeps-empty : Keeps h f free_empty
  Keeps-empty = record { run = λ s v. v }

pub Keeps-free_lock :
    {A : Type 0} (h : ℕ → Hold) (m : M A) → Keeps h true m → Keeps h false (with_free_lock m)
Keeps-free_lock h m v =
    Ensures-scope free_lock free_unlock m (λ s p. Holds-free_lock h p) v
      (λ a s p. Holds-free_unlock h p) (λ s p. Holds-free_unlock h p)

pub ruleset keeping = (
  Keeps-bind, Keeps-pure, Keeps-leave, Keeps-if, Keeps-require, Keeps-write, Keeps-read, Keeps-disk,
  Keeps-push, Keeps-pop, Keeps-empty, Keeps-free_lock,
)

reserve_entry-Keeps : (h : ℕ → Hold) (b d : ℕ) (i : Inode) → Keeps h true (reserve_entry b d i)
unfolding reserve_entry
reserve_entry-Keeps h b d i = search keeping depth 8

pub return_empty_block-Keeps : (h : ℕ → Hold) (b : ℕ) → Keeps h false (return_empty_block b)
unfolding return_empty_block
return_empty_block-Keeps h b = search keeping depth 8

-- The lock of the target is held, and if the target is not the root the parent's still is.
abbrev pub Entered : TargetInode → Server → Type 0
Entered t s =
    ((t.inode_block ≡ 0) × Holds (writing t.inode_block) false s.log)
    ⊎ ((t.inode_block ≢ 0)
        × Holds (writing t.inode_block) false (unshared t.parent_inode_block ∷ s.log))

abbrev pub Serves : {A : Type 0} → TargetInode → M A → Type 0
Serves t m =
    Ensures (Entered t) m (λ _ s. Holds (writing t.inode_block) false s.log)
      (λ s. Holds (writing t.inode_block) false s.log)

leave_parent-Serves : (t : TargetInode) → Serves t (leave_parent t)
leave_parent-Serves t = record {
  run = λ s e. elim e [
    | inl (p, v) ↦ rw p (subst (λ k. Holds (writing k) false s.log) p v)
    | inr (p, v) ↦ let e' : (t.inode_block == 0) ≡ false = ground arith in rw e' v
  ];
}

-- The same for a read lock, which may be the parent's.
abbrev pub Entered' : TargetInode → Server → Type 0
Entered' t s =
    ((t.inode_block ≡ 0) × Holds (reading t.inode_block) false s.log)
    ⊎ ((t.inode_block ≢ 0)
        × Holds (reading t.inode_block) false (unshared t.parent_inode_block ∷ s.log))

leave_parent-Reads :
    (t : TargetInode)
    → Ensures
        (λ s. Entered' t s)
        (leave_parent t)
        (λ _ s. Holds (reading t.inode_block) false s.log)
        (λ s. Holds (reading t.inode_block) false s.log)
leave_parent-Reads t = record {
  run = λ s e. elim e [
    | inl (p, v) ↦ rw p (subst (λ k. Holds (reading k) false s.log) p v)
    | inr (p, v) ↦ let e' : (t.inode_block == 0) ≡ false = ground arith in rw e' v
  ];
}

pub create_locked-Serves :
    (stack : Stack) (type username name : List ℕ) (b : ℕ) (t : TargetInode)
    → Serves t (create_locked stack type username name b t)
unfolding create_locked
create_locked-Serves stack type username name b t =
    Ensures-bind _ _ (leave_parent-Serves t)
      λ _. search (keeping, reserve_entry-Keeps, return_empty_block-Keeps) depth 12

pub read_in-Serves :
    (username : List ℕ) (block_id : ℕ) (t : TargetInode)
    → Ensures
        (λ s. Entered' t s)
        (read_in username block_id t)
        (λ _ s. Holds (reading t.inode_block) false s.log)
        (λ s. Holds (reading t.inode_block) false s.log)
unfolding read_in
read_in-Serves username block_id t =
    Ensures-bind _ _ (leave_parent-Reads t) λ _. search keeping depth 12

pub write_in-Serves :
    (username : List ℕ) (block_id : ℕ) (contents : Block) (t : TargetInode)
    → Serves t (write_in username block_id contents t)
unfolding write_in
write_in-Serves username block_id contents t =
    Ensures-bind _ _ (leave_parent-Serves t) λ _. search keeping depth 14

-- Receiving changes no state.
pub recv_loop-Ensures :
    (P : Server → Type 0) (so_far : List ℕ) (incoming : List Recv)
    → Ensures P (recv_loop so_far incoming) (λ _. P) P
recv_loop-Ensures P so_far [] = record { run = λ s v. unfold recv_loop in v }
recv_loop-Ensures P so_far (closed ∷ more) = record { run = λ s v. unfold recv_loop in v }
recv_loop-Ensures P so_far (failed ∷ more) = record { run = λ s v. unfold recv_loop in v }
recv_loop-Ensures P so_far (bytes b bs ∷ more) = step (recv_loop-Ensures P (so_far ++ b ∷ bs) more)
  where
    step :
        Ensures P (recv_loop (so_far ++ b ∷ bs) more) (λ _. P) P
        → Ensures P (recv_loop so_far (bytes b bs ∷ more)) (λ _. P) P
    step ih = elim (Bool-cases (leb fs_blocksize (length (so_far ++ b ∷ bs)))) [
      | inl full ↦ unfold recv_loop in rw (full, recv_loop) (record { run = λ s v. v })
      | inr short ↦ unfold recv_loop in rw (short, recv_loop) ih
    ]

-- No directory of the tree has an entry for its own inode.
abbrev pub NoSelfEntry : Disk → Type 0
NoSelfEntry disk = (d : ℕ) (name : List ℕ) → InTree disk d → ¬ HasEntry disk d name d

-- If block `c` holds a directory's inode, the directory is one of the tree.
abbrev pub Known : Disk → ℕ → Type 0
Known disk c = (decode_inode (disk c)).type ≡ dir_type → InTree disk c

abbrev pub Sure : TargetInode → Server → Type 0
Sure t s = NoSelfEntry s.disk × Known s.disk t.inode_block

abbrev pub Calm : Server → Type 0
Calm s = AllFree s.log × NoSelfEntry s.disk

abbrev pub Arrived : TargetInode → Server → Type 0
Arrived t s =
    NoSelfEntry s.disk
    × (t.valid ≡ true → Known s.disk t.inode_block)
    × (((t.valid ≡ false) × Holds (reading t.parent_inode_block) false s.log)
        ⊎ ((t.valid ≡ true)
            × (((t.inode_block ≡ 0) × AllFree s.log)
                ⊎ ((t.inode_block ≢ 0)
                    × (t.parent_inode_block ≢ t.inode_block)
                    × Holds (reading t.parent_inode_block) false s.log))))

HasEntry-ne-zero : {disk : Disk} {d : ℕ} {name : List ℕ} {c : ℕ} → HasEntry disk d name c → c ≢ 0
HasEntry-ne-zero e z = e.is_hit.0 (e.target ∙ z)

pub traverse_dir-Arrived :
    (username : List ℕ) (names : List (List ℕ)) (R : Server → Type 0)
    → Ensures Calm (traverse_dir username names) Arrived R
traverse_dir-Arrived username [] R =
    unfold traverse_dir in
    record { run = λ s p. (p.1, (λ _ _. at_root), inr (refl, inl (refl, p.0))) }
traverse_dir-Arrived username (name ∷ rest) R = record {
  run = λ s p.
      let (t, s', eq, v) = traverse_dir-Traversed username name rest s in
      rw eq (
        subst NoSelfEntry (sym v.disk) p.1,
        (λ ok.
            subst (λ d. Known d t.inode_block) (sym v.disk)
              λ dir. below (v.within at_root ok) (v.entry ok).1 dir),
        elim (Bool-cases t.valid) [
          | inr bad ↦ inl (bad, v.locks (Holds-root p.0))
          | inl ok ↦
              let (last, e) = v.entry ok in
              inr (
                ok,
                inr (
                  HasEntry-ne-zero e,
                  λ same.
                      p.1 _ last (v.within at_root ok)
                        (subst (HasEntry s.disk t.parent_inode_block last) (sym same) e),
                  v.locks (Holds-root p.0),
                ),
              )
        ],
      );
}

-- The state under the directory's write lock once the parent's lock is given up.
abbrev Holding : TargetInode → Server → Type 0
Holding t s = Holds (writing t.inode_block) false s.log × Sure t s

abbrev pub Written : TargetInode → Server → Type 0
Written t s = Holds (writing t.inode_block) false s.log

delete_locked-Keeps :
    (h : ℕ → Hold) (username : List ℕ) (t : TargetInode) (i : Inode) (info : TargetInode)
    (es : List DirEntry)
    → Keeps h false (delete_locked username t i info es)
unfolding delete_locked
delete_locked-Keeps h username t i info es = search keeping depth 16

entry-ne-directory :
    (disk : Disk) (t : ℕ) (name : List ℕ) (out : Option (List DirEntry)) (i : Inode)
    → i ≡ decode_inode (disk t)
    → NoSelfEntry disk
    → InTree disk t
    → (check_existance disk new_target i name out).result.valid ≡ true
    → t ≢ (check_existance disk new_target i name out).result.inode_block
entry-ne-directory disk t name out i e no_self known ok =
    subst
      (λ j.
        (check_existance disk new_target j name out).result.valid ≡ true
        → t ≢ (check_existance disk new_target j name out).result.inode_block)
      (sym e) here ok
  where
    here :
        (seek_in disk t name new_target out).valid ≡ true
        → t ≢ (seek_in disk t name new_target out).inode_block
    here v same = elim (seek_cases disk t name new_target out) [
      | inl (_, h, _) ↦ no_self t name known (subst (HasEntry disk t name) (sym same) h)
      | inr (bad, _, _) ↦ absurd (ground arith)
    ]

parent_ok-dir_type :
    (username : List ℕ) (i : Inode) → parent_ok username i ≡ true → i.type ≡ dir_type
parent_ok-dir_type username i ok = ground arith

leave_parent-Holding :
    (t : TargetInode)
    → Ensures (λ s. Entered t s × Sure t s) (leave_parent t) (λ _. Holding t) (Written t)
leave_parent-Holding t = record {
  run = λ s p. elim p.0 [
    | inl (e, v) ↦ let e' : (t.inode_block == 0) ≡ true = ground arith in rw e' (v, p.1)
    | inr (e, v) ↦ let e' : (t.inode_block == 0) ≡ false = ground arith in rw e' (v, p.1)
  ];
}

pub delete_in-Serves :
    (stack : Stack) (username name : List ℕ) (t : TargetInode)
    → Ensures
        (λ s. Entered t s × Sure t s)
        (delete_in stack username name t)
        (λ _. Written t)
        (Written t)
unfolding delete_in
delete_in-Serves stack username name t = Ensures-bind _ _ (leave_parent-Holding t) λ _.
    Ensures-bind _ _ (Ensures-read_inode t.inode_block) λ i.
      Ensures-bind _ _ (Ensures-require (parent_ok username i) (λ s p. p.1.0)) λ _.
        Ensures-bind _ _ Ensures-get_disk λ disk.
          Ensures-bind _ _ (Ensures-require _ (λ s p. p.1.1.1.0)) λ _. record {
            run = λ s p.
                let info = (check_existance disk new_target i name (some stack.entries)).result in
                let ne =
                  entry-ne-directory disk t.inode_block name (some stack.entries) i
                    (subst (λ d. i ≡ decode_inode (d t.inode_block)) (sym p.1.0) p.1.1.1.0)
                    (subst NoSelfEntry (sym p.1.0) p.1.1.1.1.1.0)
                    (subst (λ d. InTree d t.inode_block) (sym p.1.0)
                      (p.1.1.1.1.1.1 (
                        subst (λ j. j.type ≡ dir_type) p.1.1.1.0
                          (parent_ok-dir_type username i p.1.1.0))))
                    p.0 in
                let scope =
                  Ensures-scope {P = Written t} {R' = Written t} {Q' = λ _. Written t}
                    (exclusive info.inode_block) (unexclusive info.inode_block) _
                    (λ _ v. Holds-both t.inode_block info.inode_block ne v)
                    (delete_locked-Keeps (writing_both t.inode_block info.inode_block) username t i
                      info
                      (entries_or
                        (check_existance disk new_target i name (some stack.entries)).output_entries
                        stack.entries))
                    (λ _ _ v. Holds-one t.inode_block info.inode_block ne v)
                    (λ _ v. Holds-one t.inode_block info.inode_block ne v) in
                scope.run s p.1.1.1.1.0;
          }
