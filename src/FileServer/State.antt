-- ===== src/FileServer/State.antt =====
-- The state of `FileServer` (Project4/file_server.h) as one request handler sees it, and the handler
-- monad. A handler may return early (`return;`) or die by an exception that nobody catches; both
-- keep the state that it has reached. The lock calls are logged, newest first.
pub mod Logic
pub mod Locks
use eecs.Base.{
  ℕ, zero, suc, ◌+◌, ◌-◌, ◌≡◌, Bool, true, false, not, ◌&&◌, Option, none, some, List, [], ◌∷◌,
  ◌++◌, ◌==◌, if◌then◌else◌,
}
use eecs.FileServer.Layout.{
  Block, Inode, DirEntry, decode_inode, encode_inode, decode_entries, encode_entries,
}

-- Lock calls on `disk_locks[b]` and on `free_block_lock`.
pub data Event : Type 0 where
  shared unshared exclusive unexclusive : ℕ → Event
  free_lock free_unlock : Event

-- A block by its number, also one that the disk does not have.
abbrev pub Disk : Type 0
Disk = ℕ → Block

pub record Server : Type 0 where
  pub disk : Disk
  pub free_blocks : List ℕ
  pub log : List Event

pub data Outcome (A : Type 0) : Type 0 where
  done : A → Outcome A
  returned : Outcome A
  crashed : Outcome A

abbrev pub M : Type 0 → Type 0
M A = Server → Outcome A × Server

module _ {A B : Type 0} where
  abbrev pub and_then : Outcome A × Server → (A → M B) → Outcome B × Server
  and_then (done a, s) k = k a s
  and_then (returned, s) k = (returned, s)
  and_then (crashed, s) k = (crashed, s)

  infixl 5 ◌>>=◌ ◌>>◌
  abbrev pub ◌>>=◌ : M A → (A → M B) → M B
  m >>= k = λ s. and_then (m s) k

  abbrev pub ◌>>◌ : M A → M B → M B
  m >> n = m >>= λ _. n

module _ {A : Type 0} where
  abbrev pub pure : A → M A
  pure a s = (done a, s)

  -- `return;`
  abbrev pub leave : M A
  leave s = (returned, s)

  -- `none` makes the handler return.
  abbrev pub or_leave : Option A → M A
  or_leave none s = (returned, s)
  or_leave (some a) s = (done a, s)

  -- `none` stands for an exception.
  abbrev pub or_throw : Option A → M A
  or_throw none s = (crashed, s)
  or_throw (some a) s = (done a, s)

abbrev pub require : Bool → M (Unit {0})
require true s = (done tt, s)
require false s = (returned, s)

abbrev pub emit : Event → Server → Server
emit e s = record s { log = e ∷ s.log }

abbrev pub event : Event → M (Unit {0})
event e s = (done tt, emit e s)

abbrev pub lock_shared : ℕ → M (Unit {0})
lock_shared b = event (shared b)

abbrev pub unlock_shared : ℕ → M (Unit {0})
unlock_shared b = event (unshared b)

-- A guard object releases its lock when the scope is left, by whatever way.
abbrev pub release : {A : Type 0} → Event → Outcome A × Server → Outcome A × Server
release e (r, s) = (r, emit e s)

module _ {A : Type 0} where
  abbrev pub with_unique_lock : ℕ → M A → M A
  with_unique_lock b m s = release (unexclusive b) (m (emit (exclusive b) s))

  abbrev pub with_shared_lock : ℕ → M A → M A
  with_shared_lock b m s = release (unshared b) (m (emit (shared b) s))

  abbrev pub with_free_lock : M A → M A
  with_free_lock m s = release free_unlock (m (emit free_lock s))

unfoldable pub update : Disk → ℕ → Block → Disk
update d b v c = if c == b then v else d c

abbrev pub disk_writeblock : ℕ → Block → M (Unit {0})
disk_writeblock b v s = (done tt, record s { disk = update s.disk b v })

abbrev pub read_inode : ℕ → M Inode
read_inode b s = (done (decode_inode (s.disk b)), s)

abbrev pub get_disk : M Disk
get_disk s = (done s.disk, s)

abbrev pub pop_from : List ℕ → M ℕ
pop_from [] s = (returned, s)
pop_from (b ∷ rest) s = (done b, record s { free_blocks = rest })

-- `front` and `pop` of `free_blocks`; the handler returns if the queue is empty.
abbrev pub pop_free : M ℕ
pop_free s = pop_from s.free_blocks s

abbrev pub is_nil {ℓ} : {A : Type ℓ} → List A → Bool
is_nil [] = true
is_nil (x ∷ xs) = false

abbrev pub free_empty : M Bool
free_empty s = (done (is_nil s.free_blocks), s)

abbrev pub push_free : List ℕ → M (Unit {0})
push_free bs s = (done tt, record s { free_blocks = s.free_blocks ++ bs })

unfoldable pub return_empty_block : ℕ → M (Unit {0})
return_empty_block block = with_free_lock (push_free (block ∷ []))
