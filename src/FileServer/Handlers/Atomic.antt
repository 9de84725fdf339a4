-- ===== src/FileServer/Handlers/Atomic.antt =====
-- The disk and the free blocks after a request that gets no response.
use eecs.Base.{
  leb, ℕ, ◌+◌, ◌≡◌, ◌≢◌, refl, sym, ap, ◌∙◌, ◌⊎◌, inl, inr, Bool, true, false, not, Option, none,
  some, List, [], ◌∷◌, ◌++◌, arith, ◌==◌, ltb, ◌||◌, if◌then◌else◌,
}
use eecs.FileServer.Params.{fs_maxfileblocks}
use eecs.FileServer.Layout.{Inode, Block, DirEntry}
use eecs.FileServer.State.{
  Disk, Event, shared, unshared, exclusive, unexclusive, free_lock, free_unlock, Server, emit, done,
  M, ◌>>=◌, ◌>>◌, pure, leave, or_leave, or_throw, require, release, unlock_shared, pop_from,
  pop_free, push_free, free_empty, is_nil, with_free_lock, with_unique_lock, with_shared_lock,
  return_empty_block, disk_writeblock, read_inode, get_disk,
}
use eecs.FileServer.State.Logic.{
  Ensures, Post, Post-stopped, Ensures-bind, Ensures-if, Ensures-scope, Ensures-pure,
  Ensures-require, Ensures-or_leave, Ensures-event, Ensures-mono, Ensures-read_inode,
  Ensures-get_disk,
}
use eecs.FileServer.Text.{path_parser, isblock, stoi}
use eecs.FileServer.Directory.{TargetInode, new_target, check_existance, no_block, traverse_dir}
use eecs.FileServer.Directory.Traverse.{traverse_dir-Traversed}
use eecs.FileServer.Common.{
  block_number, Stack, next_word, last_name, pop_back, leave_parent, parent_ok, entries_or,
}
use eecs.FileServer.Handlers.{
  Recv, recv_loop, grown, grow_directory, reserve_entry, create_entry, create_locked, delete_locked,
  delete_in, read_in, write_in, handle_create, handle_delete, handle_readblock, handle_writeblock,
}
use eecs.FileServer.Handlers.Locks.{recv_loop-Ensures}
use eecs.FileServer.Handlers.{Request, create, delete, readblock, writeblock, serve_request}

-- The list itself, or the list with its first element moved to the end.
abbrev pub Rotated : List ℕ → List ℕ → Type 0
Rotated xs ys = (ys ≡ xs) ⊎ ((b : ℕ) × (rest : List ℕ) × (xs ≡ b ∷ rest) × (ys ≡ rest ++ b ∷ []))

given :
    {A : Type 0} {P P' R : Server → Type 0} {Q : A → Server → Type 0} {m : M A}
    → ((s : Server) → P s → P' s)
    → Ensures P' m Q R
    → Ensures P m Q R
given f h = record { run = λ s p. h.run s (f s p) }

-- `traverse_dir` goes on, and changes only the log.
traverse_dir-Kept :
    (P R : Server → Type 0) (username : List ℕ) (names : List (List ℕ))
    → ((s s' : Server) → s'.disk ≡ s.disk → s'.free_blocks ≡ s.free_blocks → P s → P s')
    → Ensures P (traverse_dir username names) (λ _. P) R
traverse_dir-Kept P R username [] keep = unfold traverse_dir in record { run = λ s p. p }
traverse_dir-Kept P R username (name ∷ rest) keep = record {
  run = λ s p.
      let (t, s', eq, v) = traverse_dir-Traversed username name rest s in
      rw eq (keep s s' v.disk v.free_blocks p);
}

module _ (d : Disk) (f : List ℕ) where
  abbrev Same : Server → Type 0
  Same s = (s.disk ≡ d) × (s.free_blocks ≡ f)

  abbrev Kept : Server → Type 0
  Kept s = (s.disk ≡ d) × Rotated f s.free_blocks

  -- The first free block is taken.
  abbrev Taken : ℕ → Server → Type 0
  Taken b s = (s.disk ≡ d) × (f ≡ b ∷ s.free_blocks)

  abbrev Any : {A : Type 0} → A → Server → Type 0
  Any a s = Unit {0}

  abbrev Runs : {A : Type 0} → M A → Type 0
  Runs m = Ensures (λ s. Unit {0}) m Any Kept

  kept : (s : Server) → Same s → Kept s
  kept s p = (p.0, inl p.1)

  give_back :
      (b : ℕ) (s : Server) → Taken b s → Kept (record s { free_blocks = s.free_blocks ++ b ∷ [] })
  give_back b s p = (p.0, inr (b, s.free_blocks, p.1, refl))

  return_block-Kept :
      {A : Type 0} (b : ℕ) (Q : A → Server → Type 0)
      → Ensures (Taken b) (return_empty_block b >> leave) Q Kept
  unfolding return_empty_block
  return_block-Kept b Q = record { run = λ s p. give_back b s p }

  -- Programs that cannot stop early.
  reserve_entry-Kept :
      (b dir_block : ℕ) (i : Inode) → Ensures (Taken b) (reserve_entry b dir_block i) Any Kept
  unfolding reserve_entry
  reserve_entry-Kept b dir_block i =
      Ensures-if (dir_block == no_block) _ _
        (λ _.
          Ensures-bind {Q = λ full s. (full ≡ is_nil s.free_blocks) × Taken b s} free_empty _
            (record { run = λ s p. (refl, p) })
            λ full.
              Ensures-if (full || ltb fs_maxfileblocks (i.size + 1)) (push_free (b ∷ []) >> leave)
                (grow_directory i) (λ _. record { run = λ s p. give_back b s p.1 })
                λ room. record { run = λ s p. popped s.free_blocks s (sym p.0 ∙ ground arith) })
        (λ _. Ensures-pure (dir_block, i, false) (λ s p. tt))
    where
      popped :
          (l : List ℕ) (s : Server)
          → is_nil l ≡ false
          → Post {A = ℕ × Inode × Bool} Any Kept
              ((pop_from l >>= λ block. pure (block, grown i block, true)) s)
      popped [] s e = absurd (ground arith)
      popped (c ∷ l) s e = tt

  pop_free-Taken : Ensures Same (with_free_lock pop_free) Taken Kept
  pop_free-Taken = record { run = λ s p. go s.free_blocks s p.0 refl (sym p.1) }
    where
      go :
          (l : List ℕ) (s : Server)
          → s.disk ≡ d
          → s.free_blocks ≡ l
          → f ≡ l
          → Post Taken Kept (release free_unlock (pop_from l (emit free_lock s)))
      go [] s e h g = (e, inl (h ∙ sym g))
      go (b ∷ l) s e h g = (e, g)

  leave_parent-Keeps :
      (P R : Server → Type 0) (t : TargetInode)
      → ((s : Server) (e : Event) → P s → P (emit e s))
      → Ensures P (leave_parent t) (λ _. P) R
  leave_parent-Keeps P R t keep =
      Ensures-if (t.inode_block == 0) (pure tt) (unlock_shared t.parent_inode_block)
        (λ _. record { run = λ s p. p }) (λ _. record { run = λ s p. keep s _ p })

  create_entry-Any :
      (stack : Stack) (type username name : List ℕ) (b : ℕ) (t info : TargetInode)
      (old : List DirEntry) (place : ℕ × Inode × Bool)
      → Ensures (Any place) (create_entry stack type username name b t info old place) Any Kept
  unfolding create_entry
  create_entry-Any stack type username name b t info old (dir_block, parent, true) = record {
    run = λ s p. tt;
  }
  create_entry-Any stack type username name b t info old (dir_block, parent, false) = record {
    run = λ s p. tt;
  }

  -- `handle_create` under the directory's lock, with one free block in hand.
  create_locked-Kept :
      (stack : Stack) (type username name : List ℕ) (b : ℕ) (t : TargetInode)
      → Ensures (Taken b) (create_locked stack type username name b t) Any Kept
  unfolding create_locked
  create_locked-Kept stack type username name b t =
      Ensures-bind _ _ (leave_parent-Keeps (Taken b) Kept t (λ s e p. p)) λ _.
        Ensures-bind _ _ (Ensures-read_inode t.inode_block) λ i.
          Ensures-if (not (parent_ok username i)) _ _
            (λ _. given (λ s p. p.1) (return_block-Kept b Any))
            λ _. Ensures-bind _ _ Ensures-get_disk λ disk.
              let scan = check_existance disk new_target i name (some stack.entries) in
              Ensures-if scan.result.valid _ _ (λ _. given (λ s p. p.1.1) (return_block-Kept b Any))
                λ _.
                  Ensures-bind {Q = Any}
                    (with_free_lock (reserve_entry b scan.result.first_empty_block i)) _
                    (Ensures-scope {P' = Taken b} {R' = Kept} {Q = Any} free_lock free_unlock _
                      (λ s p. p.1.1) (reserve_entry-Kept b scan.result.first_empty_block i)
                      (λ _ _ q. q) (λ _ q. q))
                    λ place.
                      create_entry-Any stack type username name b t scan.result
                        (entries_or scan.output_entries stack.entries) place

  handle_create-Kept :
      (stack : Stack) (req username pathname : List ℕ)
      → Ensures Same (handle_create stack req username pathname) Any Kept
  unfolding handle_create
  handle_create-Kept stack req username pathname =
      Ensures-bind _ _ (Ensures-or_leave (next_word req) kept) λ w.
        Ensures-bind _ _ (given (λ s p. p.1) (Ensures-require _ kept)) λ _.
          Ensures-bind _ _ (given (λ s p. p.1) (Ensures-or_leave (path_parser pathname) kept))
            λ names. Ensures-bind _ _ (given (λ s p. p.1) pop_free-Taken) λ b.
              Ensures-bind _ _
                (traverse_dir-Kept (Taken b) Kept username (pop_back names)
                  (λ s s' e g p. (e ∙ p.0, p.1 ∙ ap (◌∷◌ b) (sym g))))
                λ t.
                  Ensures-if (not t.valid) _ _
                    (λ _.
                      Ensures-bind _ _ (Ensures-event {Q = Taken b} _ (λ s p. p))
                        λ _. return_block-Kept b Any)
                    λ _.
                      Ensures-bind {Q = Any} _ _
                        (Ensures-scope {P' = Taken b} {R' = Kept} {Q = Any}
                          (exclusive t.inode_block) (unexclusive t.inode_block) _ (λ s p. p)
                          (create_locked-Kept stack w.0 username (last_name names) b t) (λ _ _ q. q)
                          (λ _ q. q))
                        λ _. Ensures-pure _ (λ s p. tt)

  -- Steps that change nothing, and programs that cannot stop any more.
  module _ {A B : Type 0} where
    Same-bind :
        (m : M A) (k : A → M B)
        → Ensures Same m (λ _. Same) Kept
        → ((a : A) → Ensures Same (k a) Any Kept)
        → Ensures Same (m >>= k) Any Kept
    Same-bind m k g h = Ensures-bind m k g h

    Last_bind :
        (m : M A) (k : A → M B)
        → Ensures Same m Any Kept
        → ((a : A) → Runs (k a))
        → Ensures Same (m >>= k) Any Kept
    Last_bind m k g h = Ensures-bind m k g h

    Runs-bind : (m : M A) (k : A → M B) → Runs m → ((a : A) → Runs (k a)) → Runs (m >>= k)
    Runs-bind m k g h = Ensures-bind m k g h

  module _ {A : Type 0} where
    Same-if :
        (b : Bool) (m n : M A)
        → Ensures Same m Any Kept
        → Ensures Same n Any Kept
        → Ensures Same (if b then m else n) Any Kept
    Same-if true m n g h = g
    Same-if false m n g h = h

    Runs-if : (b : Bool) (m n : M A) → Runs m → Runs n → Runs (if b then m else n)
    Runs-if true m n g h = g
    Runs-if false m n g h = h

    Runs-pure : (a : A) → Runs (pure a)
    Runs-pure a = record { run = λ s p. tt }

    Runs-free_lock : (m : M A) → Runs m → Runs (with_free_lock m)
    Runs-free_lock m h = Ensures-scope free_lock free_unlock m (λ s p. tt) h (λ _ _ q. q) (λ _ q. q)

    Same-Runs : (m : M A) → Runs m → Ensures Same m Any Kept
    Same-Runs m h = given (λ s p. tt) h

  Runs-write : (b : ℕ) (v : Block) → Runs (disk_writeblock b v)
  Runs-write b v = record { run = λ s p. tt }

  Runs-push : (bs : List ℕ) → Runs (push_free bs)
  Runs-push bs = record { run = λ s p. tt }

  Same-read : (b : ℕ) → Ensures Same (read_inode b) (λ _. Same) Kept
  Same-read b = record { run = λ s p. p }

  Same-disk : Ensures Same get_disk (λ _. Same) Kept
  Same-disk = record { run = λ s p. p }

  Same-require : (b : Bool) → Ensures Same (require b) (λ _. Same) Kept
  Same-require true = record { run = λ s p. p }
  Same-require false = record { run = kept }

  Same-leave_parent : (t : TargetInode) → Ensures Same (leave_parent t) (λ _. Same) Kept
  Same-leave_parent t = leave_parent-Keeps Same Kept t (λ s e p. p)

  Same-pop : (b : Bool) → Ensures Same (with_free_lock (require b >> pop_free)) Any Kept
  Same-pop false = record { run = kept }
  Same-pop true = record { run = λ s p. popped s.free_blocks s p }
    where
      popped :
          (l : List ℕ) (s : Server)
          → Same s
          → Post {A = ℕ} Any Kept (release free_unlock (pop_from l (emit free_lock s)))
      popped [] s p = kept s p
      popped (c ∷ l) s p = tt

  ruleset running = (
    Same-bind, Last_bind, Runs-bind, Same-if, Runs-if, Runs-pure, Runs-free_lock, Same-Runs,
    Runs-write, Runs-push, Same-read, Same-disk, Same-require, Same-leave_parent, Same-pop,
  )

  -- What only reads, or stops before it writes.
  read_in-Kept :
      (username : List ℕ) (n : ℕ) (t : TargetInode) → Ensures Same (read_in username n t) Any Kept
  unfolding read_in
  read_in-Kept username n t = search running depth 12

  write_in-Kept :
      (username : List ℕ) (n : ℕ) (contents : Block) (t : TargetInode)
      → Ensures Same (write_in username n contents t) Any Kept
  unfolding write_in
  write_in-Kept username n contents t = search running depth 12

  delete_locked-Kept :
      (username : List ℕ) (t : TargetInode) (i : Inode) (info : TargetInode) (es : List DirEntry)
      → Ensures Same (delete_locked username t i info es) Any Kept
  unfolding delete_locked
  delete_locked-Kept username t i info es = search running depth 12

  module _ {A : Type 0} where
    Same-unique :
        (b : ℕ) (m : M A) → Ensures Same m Any Kept → Ensures Same (with_unique_lock b m) Any Kept
    Same-unique b m h =
        Ensures-scope (exclusive b) (unexclusive b) m (λ s p. p) h (λ _ _ q. q) (λ _ q. q)

    Same-shared :
        (b : ℕ) (m : M A) → Ensures Same m Any Kept → Ensures Same (with_shared_lock b m) Any Kept
    Same-shared b m h = Ensures-scope (shared b) (unshared b) m (λ s p. p) h (λ _ _ q. q) (λ _ q. q)

    Same-or_leave : (o : Option A) → Ensures Same (or_leave o) (λ _. Same) Kept
    Same-or_leave none = record { run = kept }
    Same-or_leave (some a) = record { run = λ s p. p }

    Same-or_throw : (o : Option A) → Ensures Same (or_throw o) (λ _. Same) Kept
    Same-or_throw none = record { run = kept }
    Same-or_throw (some a) = record { run = λ s p. p }

    Same-leave : Ensures Same (leave {A = A}) Any Kept
    Same-leave = record { run = kept }

  Same-block_number : (text : List ℕ) → Ensures Same (block_number text) (λ _. Same) Kept
  unfolding block_number
  Same-block_number text = Ensures-bind _ _ (Same-require (isblock text)) λ _.
      Ensures-bind _ _ (Same-or_throw (stoi text)) λ n.
        Ensures-bind _ _ (Same-require (not (leb fs_maxfileblocks n)))
          λ _. record { run = λ s p. p }

  Same-unlock : (b : ℕ) → Ensures Same (unlock_shared b) (λ _. Same) Kept
  Same-unlock b = record { run = λ s p. p }

  Same-recv : (incoming : List Recv) → Ensures Same (recv_loop [] incoming) (λ _. Same) Kept
  Same-recv incoming =
      Ensures-mono _ (λ s p. p) (λ _ s p. p) kept (recv_loop-Ensures Same [] incoming)

  Same-traverse :
      (username : List ℕ) (names : List (List ℕ))
      → Ensures Same (traverse_dir username names) (λ _. Same) Kept
  Same-traverse username names =
      traverse_dir-Kept Same Kept username names (λ s s' e g p. (e ∙ p.0, g ∙ p.1))

  ruleset handling = (
    running, Same-unique, Same-shared, Same-or_leave, Same-or_throw, Same-block_number, Same-leave,
    Same-unlock, Same-recv, Same-traverse,
  )

  delete_in-Kept :
      (stack : Stack) (username name : List ℕ) (t : TargetInode)
      → Ensures Same (delete_in stack username name t) Any Kept
  unfolding delete_in
  delete_in-Kept stack username name t = search (handling, delete_locked-Kept) depth 14

  handle_delete-Kept :
      (stack : Stack) (username pathname : List ℕ)
      → Ensures Same (handle_delete stack username pathname) Any Kept
  unfolding handle_delete
  handle_delete-Kept stack username pathname = search (handling, delete_in-Kept) depth 14

  handle_readblock-Kept :
      (req username pathname : List ℕ)
      → Ensures Same (handle_readblock req username pathname) Any Kept
  unfolding handle_readblock
  handle_readblock-Kept req username pathname = search (handling, read_in-Kept) depth 14

  handle_writeblock-Kept :
      (stack : Stack) (req : List ℕ) (incoming : List Recv) (username pathname : List ℕ)
      → Ensures Same (handle_writeblock stack req incoming username pathname) Any Kept
  unfolding handle_writeblock
  handle_writeblock-Kept stack req incoming username pathname =
      search (handling, write_in-Kept) depth 14

  serve_request-Kept : (r : Request) → Ensures Same (serve_request r) Any Kept
  serve_request-Kept (create stack req username pathname) =
      handle_create-Kept stack req username pathname
  serve_request-Kept (delete stack username pathname) = handle_delete-Kept stack username pathname
  serve_request-Kept (readblock req username pathname) = handle_readblock-Kept req username pathname
  serve_request-Kept (writeblock stack req incoming username pathname) =
      handle_writeblock-Kept stack req incoming username pathname

-- A request whose handler sends no response, because it is refused or because an exception ends it,
-- leaves every disk block as it was, and the free blocks as they were up to moving the first one to
-- the end of the queue.
pub serve_request-Rotated :
    (r : Request) (s : Server)
    → ((message : List ℕ) → (serve_request r s).0 ≢ done message)
    → ((serve_request r s).1.disk ≡ s.disk)
      × Rotated s.free_blocks (serve_request r s).1.free_blocks
serve_request-Rotated r s silent =
    Post-stopped (Any s.disk s.free_blocks) (Kept s.disk s.free_blocks) (serve_request r s)
      ((serve_request-Kept s.disk s.free_blocks r).run s (refl, refl)) silent
