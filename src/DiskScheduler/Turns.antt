-- ===== src/DiskScheduler/Turns.antt =====
-- What holds between two turns of the threads of the disk scheduler.
use eecs.Base.{
  ℕ, ◌<◌, ◌≡◌, ◌≢◌, refl, ◌⊎◌, Bool, true, false, not, ◌||◌, length, ◌==◌, if◌then◌else◌, arith,
}
use eecs.DiskScheduler.{Done, last_pending, pending, served, set_done}
use eecs.DiskScheduler.Requesters.{System, no_tracks}
use eecs.DiskScheduler.Counts.{count_if, occurrences}

abbrev pub waits : Done → Bool
waits last_pending = true
waits pending = true
waits served = false

-- Requester `i` has a request in the queue, or one still to make.
abbrev pub active : System → ℕ → Bool
active s i = not (no_tracks (s.tracks i)) || waits (s.monitor.requester_done i)

abbrev pub waiting : System → ℕ → Bool
waiting s i = waits (s.monitor.requester_done i)

abbrev pub one_if : Bool → ℕ
one_if b = if b then 1 else 0

pub record Consistent (n : ℕ) (s : System) : Type 0 where
  pub requester_num : s.monitor.requester_num ≡ count_if (active s) n
  pub queued : length s.monitor.disk_queue ≡ count_if (waiting s) n
  pub entries : (i : ℕ) → occurrences i s.monitor.disk_queue ≡ one_if (waiting s i)
  pub last : (i : ℕ) → s.monitor.requester_done i ≡ last_pending → no_tracks (s.tracks i) ≡ true
  pub more : (i : ℕ) → s.monitor.requester_done i ≡ pending → no_tracks (s.tracks i) ≡ false
  pub outside : (i : ℕ) → active s i ≡ true → i < n

pub ℕ-cases : (i j : ℕ) → (i ≡ j) ⊎ (i ≢ j)
ℕ-cases i j = ground arith

pub set_done_self : (f : ℕ → Done) (i : ℕ) (d : Done) → set_done f i d i ≡ d
set_done_self f i d = rw (same i) refl
  where
    same : (i : ℕ) → (i == i) ≡ true
    same i = ground arith

pub set_done-ne : (f : ℕ → Done) (i j : ℕ) (d : Done) → j ≢ i → set_done f i d j ≡ f j
set_done-ne f i j d ne = rw (other i j ne) refl
  where
    other : (i j : ℕ) → j ≢ i → (j == i) ≡ false
    other i j ne = ground arith
