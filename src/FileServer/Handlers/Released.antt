-- ===== src/FileServer/Handlers/Released.antt =====
-- The locks of the four handlers, over the whole of each.
use eecs.Base.{
  leb, ℕ, ◌≡◌, inl, inr, Bool, true, false, not, Option, none, some, List, [], ◌∷◌, ◌++◌, arith,
  if◌then◌else◌,
}
use eecs.FileServer.State.{
  shared, unshared, exclusive, unexclusive, free_lock, free_unlock, Server, emit, M, ◌>>=◌, ◌>>◌,
  pure, leave, or_leave, or_throw, require, release, unlock_shared, pop_from, pop_free, push_free,
  with_free_lock, with_unique_lock, with_shared_lock, return_empty_block,
}
use eecs.FileServer.State.Locks.{
  AllFree, nothing, Holds-free_lock, Holds-free_unlock, Holds-exclusive, Holds-exclusive_next,
  Holds-unexclusive, Holds-unshared, Holds-shared, Holds-shared_next,
}
use eecs.FileServer.State.Logic.{
  Ensures, Post, Post-any, Ensures-bind, Ensures-if, Ensures-scope, Ensures-event, Ensures-mono,
}
use eecs.FileServer.Directory.{TargetInode, used_blocks, traverse_dir}
use eecs.FileServer.Text.{path_parser, isblock, stoi}
use eecs.FileServer.Params.{fs_maxfileblocks}
use eecs.FileServer.Common.{Stack, delete_message, block_number, next_word, last_name, pop_back}
use eecs.FileServer.Handlers.{
  Request, create, delete, readblock, writeblock, serve_request, Recv, delete_in, read_in,
  block_image, recv_loop, handle_create, handle_delete, handle_readblock, handle_writeblock,
}
use eecs.FileServer.Handlers.Locks.{
  Keeps, Keeps-pure, Keeps-leave, Keeps-bind, Keeps-push, Keeps-free_lock, NoSelfEntry, Sure, Calm,
  Arrived, Entered, Entered', Serves, return_empty_block-Keeps, recv_loop-Ensures,
  traverse_dir-Arrived, create_locked-Serves, delete_in-Serves, read_in-Serves, write_in-Serves,
}

abbrev Free : Server → Type 0
Free s = AllFree s.log

-- The target's own lock is taken while the parent's is still held.
enter :
    (t : TargetInode) (s : Server)
    → (t.valid ≡ true)
    → Arrived t s
    → Entered t (emit (exclusive t.inode_block) s) × Sure t s
enter t s ok (no_self, known, inl (bad, _)) = absurd (ground arith)
enter t s ok (no_self, known, inr (_, inl (root, v))) =
    let sure : Sure t s = (no_self, known ok) in (inl (root, Holds-exclusive t.inode_block v), sure)
enter t s ok (no_self, known, inr (_, inr (ne, apart, v))) =
    let sure : Sure t s = (no_self, known ok) in
    (inr (ne, Holds-exclusive_next t.parent_inode_block t.inode_block apart v), sure)

module _ {A : Type 0} (t : TargetInode) (m : M A) where
  serve :
      Serves t m
      → Ensures
          (λ s. (t.valid ≡ true) × Arrived t s)
          (with_unique_lock t.inode_block m)
          (λ _. Free)
          Free
  serve v =
      Ensures-scope (exclusive t.inode_block) (unexclusive t.inode_block) m
        (λ s p. (enter t s p.0 p.1).0) v (λ _ s. Holds-unexclusive t.inode_block)
        (λ s. Holds-unexclusive t.inode_block)

-- A traversal that fails gives up the parent's lock.
drop_parent :
    (t : TargetInode) (R : Server → Type 0)
    → Ensures
        (λ s. (t.valid ≡ false) × Arrived t s)
        (unlock_shared t.parent_inode_block)
        (λ _. Free)
        R
drop_parent t R = Ensures-event _ λ s p. go s p.0 p.1
  where
    go :
        (s : Server)
        → t.valid ≡ false
        → Arrived t s
        → AllFree (unshared t.parent_inode_block ∷ s.log)
    go s bad (_, _, inl (_, v)) = Holds-unshared t.parent_inode_block v
    go s bad (_, _, inr (ok, _)) = absurd (ground arith)

module _ {A : Type 0} where
  Calm-or_leave : (o : Option A) → Ensures Calm (or_leave o) (λ _. Calm) Free
  Calm-or_leave none = record { run = λ s p. p.0 }
  Calm-or_leave (some a) = record { run = λ s p. p }

Calm-or_throw : (o : Option ℕ) → Ensures Calm (or_throw o) (λ _. Calm) Free
Calm-or_throw none = record { run = λ s p. p.0 }
Calm-or_throw (some n) = record { run = λ s p. p }

Calm-require : (b : Bool) → Ensures Calm (require b) (λ _. Calm) Free
Calm-require false = record { run = λ s p. p.0 }
Calm-require true = record { run = λ s p. p }

Calm-block_number : (text : List ℕ) → Ensures Calm (block_number text) (λ _. Calm) Free
unfolding block_number
Calm-block_number text = Ensures-bind _ _ (Calm-require (isblock text)) λ _.
    Ensures-bind _ _ (Calm-or_throw (stoi text)) λ n.
      Ensures-bind _ _ (Calm-require (not (leb fs_maxfileblocks n))) λ _. record { run = λ s p. p }

Calm-recv : (incoming : List Recv) → Ensures Calm (recv_loop [] incoming) (λ _. Calm) Free
Calm-recv incoming =
    Ensures-mono _ (λ s p. p) (λ _ s p. p) (λ s p. p.0) (recv_loop-Ensures Calm [] incoming)

pop_free-Calm : Ensures Calm (with_free_lock pop_free) (λ _. Calm) Free
pop_free-Calm = record { run = λ s p. go s.free_blocks s p }
  where
    go :
        (l : List ℕ) (s : Server)
        → Calm s
        → Post (λ _. Calm) Free (release free_unlock (pop_from l (emit free_lock s)))
    go [] s p = Holds-free_unlock nothing (Holds-free_lock nothing p.0)
    go (b ∷ rest) s p = (Holds-free_unlock nothing (Holds-free_lock nothing p.0), p.1)

module _ {A B : Type 0} where
  Calm-bind :
      (m : M A) (k : A → M B)
      → Ensures Calm m (λ _. Calm) Free
      → ((a : A) → Ensures Calm (k a) (λ _. Free) Free)
      → Ensures Calm (m >>= k) (λ _. Free) Free
  Calm-bind m k h f = Ensures-bind m k h f

  Free-bind :
      (P : Server → Type 0) (m : M A) (k : A → M B)
      → Ensures P m (λ _. Free) Free
      → ((a : A) → Keeps nothing false (k a))
      → Ensures P (m >>= k) (λ _. Free) Free
  Free-bind P m k h f = Ensures-bind m k h f

module _ {B : Type 0} where
  Arrived-bind :
      (username : List ℕ) (names : List (List ℕ)) (k : TargetInode → M B)
      → ((t : TargetInode) → Ensures (Arrived t) (k t) (λ _. Free) Free)
      → Ensures Calm (traverse_dir username names >>= k) (λ _. Free) Free
  Arrived-bind username names k f = Ensures-bind _ k (traverse_dir-Arrived username names Free) f

  -- What a handler does once the path is walked.
  Arrived-if :
      (t : TargetInode) (m n : M B)
      → Ensures (λ s. (t.valid ≡ false) × Arrived t s) m (λ _. Free) Free
      → Ensures (λ s. (t.valid ≡ true) × Arrived t s) n (λ _. Free) Free
      → Ensures (Arrived t) (if not t.valid then m else n) (λ _. Free) Free
  Arrived-if t m n f g =
      Ensures-if (not t.valid) m n
        (λ e. Ensures-mono m (λ s p. (ground arith, p)) (λ _ _ q. q) (λ _ q. q) f)
        (λ e. Ensures-mono n (λ s p. (ground arith, p)) (λ _ _ q. q) (λ _ q. q) g)

-- The way out after a failed traversal.
give_up :
    {A : Type 0} (t : TargetInode)
    → Ensures
        (λ s. (t.valid ≡ false) × Arrived t s)
        (unlock_shared t.parent_inode_block >> leave {A = A})
        (λ _. Free)
        Free
give_up t = Free-bind _ _ _ (drop_parent t Free) λ _. Keeps-leave nothing false

give_up_block :
    {A : Type 0} (t : TargetInode) (b : ℕ)
    → Ensures
        (λ s. (t.valid ≡ false) × Arrived t s)
        (unlock_shared t.parent_inode_block >> (return_empty_block b >> leave {A = A}))
        (λ _. Free)
        Free
give_up_block t b = Free-bind _ _ _ (drop_parent t Free) λ _.
    Keeps-bind nothing false _ _ (return_empty_block-Keeps nothing b) λ _. Keeps-leave nothing false

-- The target's scope and the response.
answer :
    {A B : Type 0} (t : TargetInode) (m : M A) (k : A → B)
    → Serves t m
    → Ensures
        (λ s. (t.valid ≡ true) × Arrived t s)
        (with_unique_lock t.inode_block m >>= λ a. pure (k a))
        (λ _. Free)
        Free
answer t m k v = Free-bind _ _ _ (serve t m v) λ a. Keeps-pure nothing false (k a)

serve_delete :
    (stack : Stack) (username name : List ℕ) (t : TargetInode)
    → Ensures
        (λ s. (t.valid ≡ true) × Arrived t s)
        (with_unique_lock t.inode_block (delete_in stack username name t))
        (λ _. Free)
        Free
serve_delete stack username name t =
    Ensures-scope (exclusive t.inode_block) (unexclusive t.inode_block) _ (λ s p. enter t s p.0 p.1)
      (delete_in-Serves stack username name t) (λ _ s. Holds-unexclusive t.inode_block)
      (λ s. Holds-unexclusive t.inode_block)

serve_read :
    (username : List ℕ) (n : ℕ) (t : TargetInode)
    → Ensures
        (λ s. (t.valid ≡ true) × Arrived t s)
        (with_shared_lock t.inode_block (read_in username n t))
        (λ _. Free)
        Free
serve_read username n t =
    Ensures-scope (shared t.inode_block) (unshared t.inode_block) _ (λ s p. go s p.0 p.1)
      (read_in-Serves username n t) (λ _ s. Holds-unshared t.inode_block)
      (λ s. Holds-unshared t.inode_block)
  where
    go : (s : Server) → t.valid ≡ true → Arrived t s → Entered' t (emit (shared t.inode_block) s)
    go s ok (_, _, inl (bad, _)) = absurd (ground arith)
    go s ok (_, _, inr (_, inl (root, v))) = inl (root, Holds-shared t.inode_block v)
    go s ok (_, _, inr (_, inr (ne, apart, v))) =
        inr (ne, Holds-shared_next t.parent_inode_block t.inode_block v)

push_lock : (bs : List ℕ) → Keeps nothing false (with_free_lock (push_free bs))
push_lock bs = Keeps-free_lock nothing _ (Keeps-push nothing true bs)

handle_create-Free :
    (stack : Stack) (req username pathname : List ℕ)
    → Ensures Calm (handle_create stack req username pathname) (λ _. Free) Free
unfolding handle_create
handle_create-Free stack req username pathname = Calm-bind _ _ (Calm-or_leave (next_word req)) λ w.
    Calm-bind _ _ (Calm-require _) λ _.
      Calm-bind _ _ (Calm-or_leave (path_parser pathname)) λ names. Calm-bind _ _ pop_free-Calm λ b.
        Arrived-bind username (pop_back names) _ λ t.
          Arrived-if t _ _ (give_up_block t b)
            (answer t _ _ (create_locked-Serves stack w.0 username (last_name names) b t))

handle_writeblock-Free :
    (stack : Stack) (req : List ℕ) (incoming : List Recv) (username pathname : List ℕ)
    → Ensures Calm (handle_writeblock stack req incoming username pathname) (λ _. Free) Free
unfolding handle_writeblock
handle_writeblock-Free stack req incoming username pathname =
    Calm-bind _ _ (Calm-or_leave (next_word req)) λ w. Calm-bind _ _ (Calm-block_number w.0) λ n.
      Calm-bind _ _ (Calm-recv incoming) λ contents.
        Calm-bind _ _ (Calm-or_leave (path_parser pathname)) λ names.
          Arrived-bind username names _ λ t.
            Arrived-if t _ _ (give_up t)
              (answer t _ _ (write_in-Serves username n (block_image stack contents) t))

handle_delete-Free :
    (stack : Stack) (username pathname : List ℕ)
    → Ensures Calm (handle_delete stack username pathname) (λ _. Free) Free
unfolding handle_delete
handle_delete-Free stack username pathname =
    Calm-bind _ _ (Calm-or_leave (path_parser pathname)) λ names.
      Arrived-bind username (pop_back names) _ λ t. Arrived-if t _ _ (give_up t) (
        Free-bind _ _ _ (serve_delete stack username (last_name names) t) λ r.
          Keeps-bind nothing false _ _ (push_lock (used_blocks r.0 ++ (r.1 ∷ [])))
            λ _. Keeps-pure nothing false (delete_message username pathname))

handle_readblock-Free :
    (req username pathname : List ℕ)
    → Ensures Calm (handle_readblock req username pathname) (λ _. Free) Free
unfolding handle_readblock
handle_readblock-Free req username pathname = Calm-bind _ _ (Calm-or_leave (next_word req)) λ w.
    Calm-bind _ _ (Calm-block_number w.0) λ n.
      Calm-bind _ _ (Calm-or_leave (path_parser pathname)) λ names.
        Arrived-bind username names _ λ t.
          Arrived-if t _ _ (give_up t)
            (Free-bind _ _ _ (serve_read username n t) λ contents. Keeps-pure nothing false _)

-- On a disk where no directory of the tree has an entry for itself, a handler that starts with no lock held
-- takes and gives back locks only in turn, never waits for a lock of its own, and ends with no lock
-- held: for every request, on every way out, errors included.
pub serve_request-AllFree :
    (r : Request) (s : Server)
    → NoSelfEntry s.disk
    → AllFree s.log
    → AllFree (serve_request r s).1.log
serve_request-AllFree (create stack req username pathname) s h v =
    Post-any Free _ ((handle_create-Free stack req username pathname).run s (v, h))
serve_request-AllFree (delete stack username pathname) s h v =
    Post-any Free _ ((handle_delete-Free stack username pathname).run s (v, h))
serve_request-AllFree (readblock req username pathname) s h v =
    Post-any Free _ ((handle_readblock-Free req username pathname).run s (v, h))
serve_request-AllFree (writeblock stack req incoming username pathname) s h v =
    Post-any Free _ ((handle_writeblock-Free stack req incoming username pathname).run s (v, h))
