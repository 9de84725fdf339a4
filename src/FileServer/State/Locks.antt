-- ===== src/FileServer/State/Locks.antt =====
-- What a log of lock calls means for one lock. A call that cannot be made by the caller (a release
-- of a lock that is not held, a request that waits for the caller itself) makes the replay `none`.
use eecs.Base.{
  ℕ, zero, suc, ◌≡◌, ◌≢◌, refl, Bool, true, false, Option, none, some, List, [], ◌∷◌, ◌==◌,
  if◌then◌else◌, arith,
}
use eecs.FileServer.State.{Event, shared, unshared, exclusive, unexclusive, free_lock, free_unlock}

-- How the handler's thread holds one lock.
pub data Hold : Type 0 where
  readers : ℕ → Hold
  writer : Hold

abbrev pub unheld : Hold
unheld = readers 0

abbrev pub take_shared : Hold → Option Hold
take_shared (readers n) = some (readers (suc n))
take_shared writer = none

abbrev pub drop_shared : Hold → Option Hold
drop_shared (readers zero) = none
drop_shared (readers (suc n)) = some (readers n)
drop_shared writer = none

abbrev pub take_exclusive : Hold → Option Hold
take_exclusive (readers zero) = some writer
take_exclusive (readers (suc n)) = none
take_exclusive writer = none

abbrev pub drop_exclusive : Hold → Option Hold
drop_exclusive (readers n) = none
drop_exclusive writer = some unheld

abbrev pub apply : ℕ → Event → Hold → Option Hold
apply b (shared c) h = if c == b then take_shared h else some h
apply b (unshared c) h = if c == b then drop_shared h else some h
apply b (exclusive c) h = if c == b then take_exclusive h else some h
apply b (unexclusive c) h = if c == b then drop_exclusive h else some h
apply b free_lock h = some h
apply b free_unlock h = some h

abbrev pub and_apply : ℕ → Event → Option Hold → Option Hold
and_apply b e none = none
and_apply b e (some h) = apply b e h

-- The lock of block `b` after the calls of a log, newest first.
abbrev pub hold : ℕ → List Event → Option Hold
hold b [] = some unheld
hold b (e ∷ log) = and_apply b e (hold b log)

abbrev pub apply_free : Event → Bool → Option Bool
apply_free free_lock true = none
apply_free free_lock false = some true
apply_free free_unlock true = some false
apply_free free_unlock false = none
apply_free (shared c) h = some h
apply_free (unshared c) h = some h
apply_free (exclusive c) h = some h
apply_free (unexclusive c) h = some h

abbrev pub and_apply_free : Event → Option Bool → Option Bool
and_apply_free e none = none
and_apply_free e (some h) = apply_free e h

-- `free_block_lock` after the calls of a log.
abbrev pub hold_free : List Event → Option Bool
hold_free [] = some false
hold_free (e ∷ log) = and_apply_free e (hold_free log)

-- Every lock is held as `h` says, and `free_block_lock` as `f` does; no call was out of place.
pub record Holds (h : ℕ → Hold) (f : Bool) (log : List Event) : Type 0 where
  pub each : (b : ℕ) → hold b log ≡ some (h b)
  pub free : hold_free log ≡ some f

abbrev pub nothing : ℕ → Hold
nothing b = unheld

-- No lock is held.
abbrev pub AllFree : List Event → Type 0
AllFree log = Holds nothing false log

-- Only the lock of `d` is held: shared, or exclusively.
abbrev pub reading : ℕ → ℕ → Hold
reading d b = if d == b then readers 1 else unheld

abbrev pub writing : ℕ → ℕ → Hold
writing d b = if d == b then writer else unheld

abbrev pub writing_both : ℕ → ℕ → ℕ → Hold
writing_both t c b = if t == b then writer else if c == b then writer else unheld

-- The steps that the handlers take from one holding to the next.
module _ {log : List Event} where
  pub Holds-root : AllFree log → Holds (reading 0) false (shared 0 ∷ log)
  Holds-root v = record { each = λ b. rw (v.each b) (ground arith); free = rw v.free refl }

  -- Hand over hand: the next lock is taken before the last is given up.
  pub Holds-next :
      (d c : ℕ)
      → Holds (reading d) false log
      → Holds (reading c) false (unshared d ∷ shared c ∷ log)
  Holds-next d c v = record { each = λ b. rw (v.each b) (ground arith); free = rw v.free refl }

  pub Holds-unshared : (d : ℕ) → Holds (reading d) false log → AllFree (unshared d ∷ log)
  Holds-unshared d v = record { each = λ b. rw (v.each b) (ground arith); free = rw v.free refl }

  pub Holds-exclusive : (t : ℕ) → AllFree log → Holds (writing t) false (exclusive t ∷ log)
  Holds-exclusive t v = record { each = λ b. rw (v.each b) (ground arith); free = rw v.free refl }

  pub Holds-exclusive_next :
      (d t : ℕ)
      → d ≢ t
      → Holds (reading d) false log
      → Holds (writing t) false (unshared d ∷ exclusive t ∷ log)
  Holds-exclusive_next d t h v = record {
    each = λ b. rw (v.each b) (ground arith);
    free = rw v.free refl;
  }

  pub Holds-unexclusive : (t : ℕ) → Holds (writing t) false log → AllFree (unexclusive t ∷ log)
  Holds-unexclusive t v = record { each = λ b. rw (v.each b) (ground arith); free = rw v.free refl }

  pub Holds-shared : (t : ℕ) → AllFree log → Holds (reading t) false (shared t ∷ log)
  Holds-shared t v = record { each = λ b. rw (v.each b) (ground arith); free = rw v.free refl }

  pub Holds-both :
      (t c : ℕ)
      → t ≢ c
      → Holds (writing t) false log
      → Holds (writing_both t c) false (exclusive c ∷ log)
  Holds-both t c h v = record { each = λ b. rw (v.each b) (ground arith); free = rw v.free refl }

  pub Holds-one :
      (t c : ℕ)
      → t ≢ c
      → Holds (writing_both t c) false log
      → Holds (writing t) false (unexclusive c ∷ log)
  Holds-one t c h v = record { each = λ b. rw (v.each b) (ground arith); free = rw v.free refl }

  pub Holds-shared_next :
      (d t : ℕ)
      → Holds (reading d) false log
      → Holds (reading t) false (unshared d ∷ shared t ∷ log)
  Holds-shared_next d t v = Holds-next d t v

  pub Holds-free_lock : (h : ℕ → Hold) → Holds h false log → Holds h true (free_lock ∷ log)
  Holds-free_lock h v = record { each = λ b. rw (v.each b) refl; free = rw v.free refl }

  pub Holds-free_unlock : (h : ℕ → Hold) → Holds h true log → Holds h false (free_unlock ∷ log)
  Holds-free_unlock h v = record { each = λ b. rw (v.each b) refl; free = rw v.free refl }
