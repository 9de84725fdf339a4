-- ===== src/DiskScheduler/Examples.antt =====
-- The theorems about the disk scheduler at two small states.
use eecs.Base.{
  ℕ, zero, suc, ◌≤◌, ◌<◌, ◌≡◌, ◌≢◌, refl, subst, Option, none, some, true, [], ◌∷◌, length,
  get_elem?, arith, codes, List, false, ◌⊎◌, ◌+◌, ◌*◌,
}
use eecs.DiskScheduler.{
  Done, served, pending, Monitor, distance, nearest, target_of, serve, request, at_start, Reach,
  start, serves, requests, erase_at,
}
use eecs.DiskScheduler.Nearest.{Nearest, target_of-Nearest}
use eecs.DiskScheduler.Requesters.{
  System, Turn, server, requester, no_tracks, read_tracks, lines_of, stoul, digits_at,
  requester_turn, server_turn, turn, turns_after, schedule,
}
use eecs.DiskScheduler.Live.{work, effort, Finished, schedule-Live}
use eecs.DiskScheduler.Full.{Filled, Reach-Filled}

abbrev two_requests : Monitor
two_requests = record {
  cur_track = 100;
  max_disk_queue = 2;
  requester_num = 2;
  disk_queue = (0, 800) ∷ (1, 120) ∷ [];
  disk_queue_full = true;
  requester_done = λ i. pending;
}

not_empty : two_requests.disk_queue ≢ []
not_empty e = absurd (omega (arith, len e))
  where
    len : two_requests.disk_queue ≡ [] → Path ℕ 2 0
    len e = λ i. length (e i)

same : {d e : ℕ × ℕ} → Path (Option (ℕ × ℕ)) (some d) (some e) → d ≡ e
same q = cc

by_entry : {d e : ℕ × ℕ} → d ≡ e → distance 100 d.1 < 1000 → distance 100 e.1 < 1000
by_entry q h = subst (λ x. distance 100 x.1 < 1000) q h

missing : (e : ℕ × ℕ) → ¬ (Path (Option (ℕ × ℕ)) none (some e))
missing e q = cc

all_near :
    (j : ℕ) (e : ℕ × ℕ)
    → get_elem? two_requests.disk_queue j ≡ some e
    → distance two_requests.cur_track e.1 < 1000
all_near zero e q = by_entry (same q) (omega arith)
all_near (suc zero) e q = by_entry (same q) (omega arith)
all_near (suc (suc j)) e q = absurd (missing e q)

target_of-Nearest_example : Nearest 100 ((0, 800) ∷ (1, 120) ∷ []) (target_of two_requests)
target_of-Nearest_example = target_of-Nearest two_requests not_empty all_near

picks_second : target_of two_requests ≡ 1
unfolding target_of nearest
picks_second = refl

abbrev one_request : Monitor
one_request = request 0 50 true (at_start 1 1)

ready : ¬ (Path Done served pending)
ready e = cc

one_full : one_request.disk_queue_full ≡ true
unfolding request
one_full = refl

one_left : 1 ≤ one_request.requester_num
unfolding request
one_left = omega arith

served-Reach : Reach 1 1 (serve one_request)
served-Reach = serves (requests 0 50 true start refl ready) one_left one_full

one_one : 1 ≤ 1
one_one = omega arith

Reach-Filled_example : Filled 1 (serve one_request)
Reach-Filled_example = Reach-Filled 1 1 (serve one_request) one_one one_one served-Reach

-- Two requesters, of two tracks and one, with a limit of two.
abbrev track_lists : ℕ → List ℕ
track_lists zero = 5 ∷ 9 ∷ []
track_lists (suc zero) = 7 ∷ []
track_lists (suc (suc i)) = []

two_lists : (i : ℕ) → i < 2 → no_tracks (track_lists i) ≡ false
two_lists zero k = refl
two_lists (suc zero) k = refl
two_lists (suc (suc i)) k = absurd (omega (arith, k))

no_more_lists : (i : ℕ) → 2 ≤ i → no_tracks (track_lists i) ≡ true
no_more_lists zero k = absurd (omega (arith, k))
no_more_lists (suc zero) k = absurd (omega (arith, k))
no_more_lists (suc (suc i)) k = refl

abbrev three_turns : List Turn
three_turns = requester 1 ∷ requester 0 ∷ server ∷ []

abbrev after_three : Option System
after_three = turns_after three_turns (some (schedule 2 2 track_lists))

abbrev or_start : Option System → System
or_start none = schedule 2 2 track_lists
or_start (some s) = s

-- The server has served requester 0, which is nearer.
serves_nearer : (or_start after_three).monitor.cur_track ≡ 5
unfolding turn requester_turn server_turn serve request target_of nearest erase_at
serves_nearer = refl

three_go : after_three ≡ some (or_start after_three)
unfolding turn requester_turn server_turn serve request target_of nearest erase_at
three_go = refl

schedule-Live_example :
    (length three_turns + effort 2 (or_start after_three) ≡ 2 * work 2 track_lists)
    × (Finished (or_start after_three)
        ⊎ ((t : Turn) × (s' : System) × (turn t (or_start after_three) ≡ some s')))
schedule-Live_example =
    schedule-Live 2 2 (omega arith) (omega arith) track_lists two_lists no_more_lists three_turns
      (or_start after_three) three_go

reads_tracks : read_tracks (codes "5\n 9\n7") ≡ some (5 ∷ 9 ∷ 7 ∷ [])
unfolding read_tracks lines_of stoul digits_at
reads_tracks = refl
