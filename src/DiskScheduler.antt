-- ===== src/DiskScheduler.antt =====
-- Project1/scheduler.cpp: the disk scheduler, as a monitor whose critical sections are steps. A track
-- is a number below 2 ^ 31, so that the casts to int keep it.
pub mod Nearest
pub mod Full
pub mod Requesters
pub mod Counts
pub mod Turns
pub mod Serving
pub mod Requesting
pub mod Live
mod Examples
use eecs.Base.{
  ℕ, zero, suc, ◌+◌, ◌-◌, ◌≤◌, ◌≡◌, ◌≢◌, Bool, true, false, List, [], ◌∷◌, ◌++◌, length, get_or,
  ◌==◌, ltb, leb, if◌then◌else◌,
}

-- The values -1, 0 and 1 of `requester_done`.
pub data Done : Type 0 where
  last_pending : Done
  pending : Done
  served : Done

pub record Monitor : Type 0 where
  pub cur_track : ℕ
  pub max_disk_queue : ℕ
  pub requester_num : ℕ
  pub disk_queue : List (ℕ × ℕ)
  pub disk_queue_full : Bool
  pub requester_done : ℕ → Done

-- std::abs(cur_track - track)
abbrev pub distance : ℕ → ℕ → ℕ
distance a b = (a - b) + (b - a)

-- The loop over the queue from index `i` on, with `diff` and `target_index`.
unfoldable pub nearest : ℕ → List (ℕ × ℕ) → ℕ → ℕ → ℕ → ℕ
nearest cur_track [] i diff target_index = target_index
nearest cur_track (d ∷ ds) i diff target_index = elim (ltb (distance cur_track d.1) diff) [
  | true ↦ nearest cur_track ds (suc i) (distance cur_track d.1) i
  | false ↦ nearest cur_track ds (suc i) diff target_index
]

unfoldable pub target_of : Monitor → ℕ
unfolding nearest
target_of s = nearest s.cur_track s.disk_queue 0 1000 0

unfoldable pub erase_at : List (ℕ × ℕ) → ℕ → List (ℕ × ℕ)
erase_at [] i = []
erase_at (d ∷ ds) zero = ds
erase_at (d ∷ ds) (suc i) = d ∷ erase_at ds i

abbrev pub min : ℕ → ℕ → ℕ
min a b = if leb a b then a else b

abbrev pub is_last : Done → Bool
is_last last_pending = true
is_last pending = false
is_last served = false

abbrev pub set_done : (ℕ → Done) → ℕ → Done → ℕ → Done
set_done f i d j = if j == i then d else f j

-- The server's section, once it has found `disk_queue_full` set.
unfoldable pub serve : Monitor → Monitor
unfolding target_of erase_at
serve s =
    let target_index = target_of s in
    let (req_i, track) = get_or s.disk_queue target_index (0, 0) in
    let rest = erase_at s.disk_queue target_index in
    let left = if is_last (s.requester_done req_i) then s.requester_num - 1 else s.requester_num in
    record {
      cur_track = track;
      max_disk_queue = s.max_disk_queue;
      requester_num = left;
      disk_queue = rest;
      disk_queue_full = length rest == min left s.max_disk_queue;
      requester_done = set_done s.requester_done req_i served;
    }

-- The section of requester `req_i` for one track, once it has found room; `last` says that it is the
-- requester's last one.
unfoldable pub request : ℕ → ℕ → Bool → Monitor → Monitor
request req_i track last s =
    let queue = s.disk_queue ++ (req_i, track) ∷ [] in
    record {
      cur_track = s.cur_track;
      max_disk_queue = s.max_disk_queue;
      requester_num = s.requester_num;
      disk_queue = queue;
      disk_queue_full =
          if length queue == min s.requester_num s.max_disk_queue then true else s.disk_queue_full;
      requester_done = set_done s.requester_done req_i (if last then last_pending else pending);
    }

abbrev pub at_start : ℕ → ℕ → Monitor
at_start max_disk_queue requester_num = record {
  cur_track = 0;
  max_disk_queue = max_disk_queue;
  requester_num = requester_num;
  disk_queue = [];
  disk_queue_full = false;
  requester_done = λ i. served;
}

-- The states between two sections. The server has stopped once no requester is left.
pub data Reach (max_disk_queue requester_num : ℕ) : Monitor → Type 0 where
  start : Reach max_disk_queue requester_num (at_start max_disk_queue requester_num)
  serves :
      {s : Monitor}
      → Reach max_disk_queue requester_num s
      → 1 ≤ s.requester_num
      → s.disk_queue_full ≡ true
      → Reach max_disk_queue requester_num (serve s)
  requests :
      {s : Monitor} (req_i track : ℕ) (last : Bool)
      → Reach max_disk_queue requester_num s
      → s.disk_queue_full ≡ false
      → s.requester_done req_i ≢ pending
      → Reach max_disk_queue requester_num (request req_i track last s)
