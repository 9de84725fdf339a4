-- ===== src/DiskScheduler/Requesters.antt =====
-- The threads of the disk scheduler (Project1/scheduler.cpp): which of them can go on, and what it does
-- until it waits or ends. `requester_func` and `server_func` at their loops, `schedule` at its start.
use eecs.Base.{
  ℕ, ◌+◌, ◌-◌, ◌*◌, ◌^◌, ◌%◌, ◌&&◌, leb, Bool, true, false, not, ◌||◌, List, [], ◌∷◌, Option, none,
  some, ◌==◌, ltb, if◌then◌else◌,
}
use eecs.DiskScheduler.{Done, last_pending, pending, served, Monitor, serve, request, at_start}

-- `tracks` has what is left of the local queue of each requester.
pub record System : Type 0 where
  pub monitor : Monitor
  pub tracks : ℕ → List ℕ

-- Who takes `mutex1` next.
pub data Turn : Type 0 where
  server : Turn
  requester : ℕ → Turn

abbrev pub is_pending : Done → Bool
is_pending last_pending = false
is_pending pending = true
is_pending served = false

abbrev pub no_tracks : List ℕ → Bool
no_tracks [] = true
no_tracks (t ∷ ts) = false

-- `tracks.pop()` of requester `req_i`.
abbrev pub pop_track : (ℕ → List ℕ) → ℕ → List ℕ → ℕ → List ℕ
pop_track tracks req_i ts j = if j == req_i then ts else tracks j

-- The requester's loop with the queue `tracks`, from one `mutex1.unlock()` to the next.
unfoldable pub requester_turn : ℕ → List ℕ → System → Option System
requester_turn req_i [] s = none
requester_turn req_i (track ∷ ts) s =
    if s.monitor.disk_queue_full || is_pending (s.monitor.requester_done req_i)
    then none
    else some (record {
      monitor = request req_i track (no_tracks ts) s.monitor;
      tracks = pop_track s.tracks req_i ts;
    })

-- The server's loop, which ends when no requester is left.
unfoldable pub server_turn : System → Option System
server_turn s =
    if s.monitor.requester_num == 0 || not s.monitor.disk_queue_full
    then none
    else some (record s { monitor = serve s.monitor })

-- `none`: the thread waits or has ended.
unfoldable pub turn : Turn → System → Option System
unfolding requester_turn server_turn
turn server s = server_turn s
turn (requester req_i) s = requester_turn req_i (s.tracks req_i) s

abbrev pub turns_after : List Turn → Option System → Option System
turns_after [] s = s
turns_after (t ∷ ts) none = none
turns_after (t ∷ ts) (some s) = turns_after ts (turn t s)

-- `schedule`, with the tracks that the requesters have read.
abbrev pub schedule : ℕ → ℕ → (ℕ → List ℕ) → System
schedule max_disk_queue requester_num tracks = record {
  monitor = at_start max_disk_queue requester_num;
  tracks = tracks;
}

-- std::getline until the end of the file: the lines of its bytes.
abbrev pub push_byte : ℕ → List (List ℕ) → List (List ℕ)
push_byte c [] = (c ∷ []) ∷ []
push_byte c (l ∷ ls) = (c ∷ l) ∷ ls

unfoldable pub lines_of : List ℕ → List (List ℕ)
lines_of [] = []
lines_of (c ∷ cs) = let rest = lines_of cs in if c == 10 then [] ∷ rest else push_byte c rest

abbrev pub is_digit : ℕ → Bool
is_digit c = leb 48 c && leb c 57

abbrev pub is_space : ℕ → Bool
is_space c = c == 32 || (leb 9 c && leb c 13)

-- The number of the digits at the front, if there are any.
unfoldable pub digits_at : Option ℕ → List ℕ → Option ℕ
digits_at n [] = n
digits_at n (c ∷ cs) =
    let more = digits_at (some (10 * or_zero n + (c - 48))) cs in if is_digit c then more else n
  where
    or_zero : Option ℕ → ℕ
    or_zero none = 0
    or_zero (some n) = n

abbrev pub negative : Option ℕ → Option ℕ
negative none = none
negative (some n) = some ((2 ^ 64 - n) % 2 ^ 64)

abbrev pub fits_ulong : Option ℕ → Option ℕ
fits_ulong none = none
fits_ulong (some n) = if ltb n (2 ^ 64) then some n else none

abbrev pub signed : List ℕ → Option ℕ
signed [] = none
signed (c ∷ cs) =
    if c == 43
    then fits_ulong (digits_at none cs)
    else if c == 45
    then negative (fits_ulong (digits_at none cs))
    else fits_ulong (digits_at none (c ∷ cs))

-- std::stoul: `none` for its exceptions. Blanks at the front are skipped.
unfoldable pub stoul : List ℕ → Option ℕ
unfolding digits_at
stoul [] = none
stoul (c ∷ cs) = let rest = stoul cs in if is_space c then rest else signed (c ∷ cs)

abbrev pub and_track : Option ℕ → Option (List ℕ) → Option (List ℕ)
and_track none ts = none
and_track (some n) none = none
and_track (some n) (some ts) = some (n % 2 ^ 32 ∷ ts)

abbrev pub tracks_of : List (List ℕ) → Option (List ℕ)
tracks_of [] = some []
tracks_of (l ∷ ls) = and_track (stoul l) (tracks_of ls)

-- The tracks of a request file; an exception ends the program.
unfoldable pub read_tracks : List ℕ → Option (List ℕ)
unfolding lines_of stoul digits_at
read_tracks file = tracks_of (lines_of file)
