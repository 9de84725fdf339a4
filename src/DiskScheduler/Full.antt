-- ===== src/DiskScheduler/Full.antt =====
-- The limit of the queue, and `disk_queue_full` (Project1/scheduler.cpp).
use eecs.Base.{
  ℕ, zero, suc, ◌+◌, ◌-◌, ◌≤◌, ◌<◌, ◌≡◌, refl, List, [], ◌∷◌, length, length-append, get_or, ◌==◌,
  ltb, arith, Bool-cases, inl, inr, ap, if◌then◌else◌,
}
use eecs.DiskScheduler.{
  Monitor, distance, nearest, target_of, erase_at, min, is_last, serve, request, Reach, start,
  serves, requests,
}

pub record Filled (m : ℕ) (s : Monitor) : Type 0 where
  pub limit : s.max_disk_queue ≡ m
  pub fits : length s.disk_queue ≤ min s.requester_num m
  pub full : s.disk_queue_full ≡ (length s.disk_queue == min s.requester_num m)

nearest-bound :
    (cur : ℕ) (ds : List (ℕ × ℕ)) (i diff k : ℕ)
    → k < i + length ds
    → nearest cur ds i diff k < i + length ds
unfolding nearest
nearest-bound cur [] i diff k h = h
nearest-bound cur (d ∷ ds) i diff k h =
    step (nearest-bound cur ds (suc i) (distance cur d.1) i (omega arith))
      (λ l. nearest-bound cur ds (suc i) diff k l)
  where
    step :
        nearest cur ds (suc i) (distance cur d.1) i < suc i + length ds
        → (k < suc i + length ds → nearest cur ds (suc i) diff k < suc i + length ds)
        → nearest cur (d ∷ ds) i diff k < i + length (d ∷ ds)
    step a b = elim (Bool-cases (ltb (distance cur d.1) diff)) [
      | inl closer ↦ rw (closer, nearest) (omega (arith, a))
      | inr far ↦ rw (far, nearest) (omega (arith, b (omega (arith, h))))
    ]

pub length-erase_at :
    (ds : List (ℕ × ℕ)) (i : ℕ) → i < length ds → length (erase_at ds i) + 1 ≡ length ds
unfolding erase_at
length-erase_at [] i h = absurd (omega (arith, h))
length-erase_at (d ∷ ds) zero h = omega arith
length-erase_at (d ∷ ds) (suc i) h = omega (arith, length-erase_at ds i (omega (arith, h)))

pub target_of-bound : (s : Monitor) → 0 < length s.disk_queue → target_of s < length s.disk_queue
unfolding target_of
target_of-bound s h =
    omega (arith, nearest-bound s.cur_track s.disk_queue 0 1000 0 (omega (arith, h)))

-- The requesters that are left after the server's section.
abbrev pub left : Monitor → ℕ
left s =
    if is_last (s.requester_done (get_or s.disk_queue (target_of s) (0, 0)).0)
    then s.requester_num - 1
    else s.requester_num

-- In every state between two sections, of requesters that are at least one, with a limit of at least
-- one, the queue has at most as many requests as the limit and the requesters allow, and
-- `disk_queue_full` says whether it has that many.
pub Reach-Filled : (m n : ℕ) (s : Monitor) → 1 ≤ m → 1 ≤ n → Reach m n s → Filled m s
Reach-Filled m n _ hm hn start = record { limit = refl; fits = omega arith; full = ground arith }
Reach-Filled m n _ hm hn (serves {s} r some_left full) = serving (Reach-Filled m n s hm hn r)
  where
    serving : Filled m s → Filled m (serve s)
    serving v =
        unfold serve in
        let count : length s.disk_queue ≡ min s.requester_num m = ground (arith, full, v.full) in
        let erased =
          length-erase_at s.disk_queue (target_of s)
            (target_of-bound s (ground (arith, count, some_left, hm))) in
        record {
          limit = v.limit;
          fits = ground (arith, erased, count, some_left, hm);
          full = ap (λ l. length (erase_at s.disk_queue (target_of s)) == min (left s) l) v.limit;
        }
Reach-Filled m n _ hm hn (requests {s} req_i track last r room ready) =
    requesting (Reach-Filled m n s hm hn r)
  where
    requesting : Filled m s → Filled m (request req_i track last s)
    requesting v =
        unfold request in
        let grows = length-append s.disk_queue ((req_i, track) ∷ []) in
        record {
          limit = v.limit;
          fits = ground (arith, grows, v.fits, room, v.full);
          full = ground (arith, grows, v.fits, room, v.full, v.limit);
        }
