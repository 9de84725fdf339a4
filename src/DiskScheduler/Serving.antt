-- ===== src/DiskScheduler/Serving.antt =====
-- The server's turn (Project1/scheduler.cpp).
use eecs.Base.{
  ℕ, suc, ◌-◌, ◌<◌, ◌≡◌, ◌≢◌, refl, sym, ap, ◌∙◌, inl, inr, Bool, true, false, not, ◌||◌, List,
  length, get_or, ◌==◌, if◌then◌else◌, arith,
}
use eecs.DiskScheduler.{
  Done, last_pending, pending, served, target_of, erase_at, is_last, set_done, serve,
}
use eecs.DiskScheduler.Full.{length-erase_at, target_of-bound}
use eecs.DiskScheduler.Requesters.{System, no_tracks}
use eecs.DiskScheduler.Counts.{
  count_if, count_if-same, count_if-drop, occurrences, occurrences-erase_at,
}
use eecs.DiskScheduler.Turns.{
  waits, active, waiting, one_if, Consistent, ℕ-cases, set_done_self, set_done-ne,
}

module _ (n : ℕ) (s : System) (h : Consistent n s)
    (some_queued : 0 < length s.monitor.disk_queue) where
  abbrev target : ℕ
  target = target_of s.monitor

  abbrev req_i : ℕ
  req_i = (get_or s.monitor.disk_queue target (0, 0)).0

  abbrev rest : List (ℕ × ℕ)
  rest = erase_at s.monitor.disk_queue target

  abbrev done' : ℕ → Done
  done' = set_done s.monitor.requester_done req_i served

  abbrev after : System
  after = record s { monitor = serve s.monitor }

  served-occurrences :
      (i : ℕ)
      → occurrences i s.monitor.disk_queue
        ≡ (if req_i == i then suc (occurrences i rest) else occurrences i rest)
  served-occurrences i =
      occurrences-erase_at i target s.monitor.disk_queue (target_of-bound s.monitor some_queued)

  req_i-waits : waiting s req_i ≡ true
  req_i-waits = let a = served-occurrences req_i in let b = h.entries req_i in ground (arith, a, b)

  req_i-idle : done' req_i ≡ served
  req_i-idle = set_done_self s.monitor.requester_done req_i served

  others : (i : ℕ) → i ≢ req_i → done' i ≡ s.monitor.requester_done i
  others i ne = set_done-ne s.monitor.requester_done req_i i served ne

  serve-entries : (i : ℕ) → occurrences i rest ≡ one_if (waits (done' i))
  serve-entries i =
      let a = served-occurrences i in
      let b = h.entries i in
      elim (ℕ-cases i req_i) [
        | inl e ↦
            let c : one_if (waits (done' i)) ≡ 0 =
              ap (λ x. one_if (waits (done' x))) e ∙ ap (λ d. one_if (waits d)) req_i-idle in
            ground (arith, a, b, e, c)
        | inr ne ↦
            let c : one_if (waits (done' i)) ≡ one_if (waiting s i) =
              ap (λ d. one_if (waits d)) (others i ne) in
            ground (arith, a, b, ne, c)
      ]

  abbrev active' : ℕ → Bool
  active' i = not (no_tracks (s.tracks i)) || waits (done' i)

  active-other : (i : ℕ) → i ≢ req_i → active s i ≡ active' i
  active-other i ne = ap (λ d. not (no_tracks (s.tracks i)) || waits d) (sym (others i ne))

  active-req_i : active' req_i ≡ not (no_tracks (s.tracks req_i))
  active-req_i =
      ap (λ d. not (no_tracks (s.tracks req_i)) || waits d) req_i-idle
      ∙ or_false (not (no_tracks (s.tracks req_i)))
    where
      or_false : (b : Bool) → (b || false) ≡ b
      or_false true = refl
      or_false false = refl

  active-before : active s req_i ≡ true
  active-before = or_true (not (no_tracks (s.tracks req_i))) (waiting s req_i) req_i-waits
    where
      or_true : (a b : Bool) → b ≡ true → (a || b) ≡ true
      or_true true b e = refl
      or_true false b e = e

  in_range : req_i < n
  in_range = h.outside req_i active-before

  serve-num :
      (d : Done)
      → s.monitor.requester_done req_i ≡ d
      → (if is_last d then s.monitor.requester_num - 1 else s.monitor.requester_num)
        ≡ count_if active' n
  serve-num last_pending e =
      let gone : active' req_i ≡ false = active-req_i ∙ ap not (h.last req_i e) in
      omega (
        arith,
        h.requester_num,
        count_if-drop (active s) active' n req_i in_range active-before gone active-other,
      )
  serve-num pending e =
      let stays : active' req_i ≡ true = active-req_i ∙ ap not (h.more req_i e) in
      h.requester_num
      ∙ count_if-same (active s) active' n (λ i k. elim (ℕ-cases i req_i) [
        | inl same ↦ ap (active s) same ∙ active-before ∙ sym stays ∙ ap active' (sym same)
        | inr ne ↦ active-other i ne
      ])
  serve-num served e = let c : false ≡ true = sym (ap waits e) ∙ req_i-waits in cc

  serve-queued : length rest ≡ count_if (λ i. waits (done' i)) n
  serve-queued = omega (
    arith,
    length-erase_at s.monitor.disk_queue target (target_of-bound s.monitor some_queued),
    h.queued,
    count_if-drop (waiting s) (λ i. waits (done' i)) n req_i in_range req_i-waits
        (ap waits req_i-idle) (λ i ne. ap waits (sym (others i ne))),
  )

  pub serve-Consistent : Consistent n (record s { monitor = serve s.monitor })
  unfolding serve
  serve-Consistent = record {
    requester_num = serve-num (s.monitor.requester_done req_i) refl;
    queued = serve-queued;
    entries = serve-entries;
    last = λ i e. elim (ℕ-cases i req_i) [
      | inl same ↦ let c : served ≡ last_pending = sym (ap done' same ∙ req_i-idle) ∙ e in cc
      | inr ne ↦ h.last i (sym (others i ne) ∙ e)
    ];
    more = λ i e. elim (ℕ-cases i req_i) [
      | inl same ↦ let c : served ≡ pending = sym (ap done' same ∙ req_i-idle) ∙ e in cc
      | inr ne ↦ h.more i (sym (others i ne) ∙ e)
    ];
    outside = λ i e. elim (ℕ-cases i req_i) [
      | inl same ↦ omega (arith, same, in_range)
      | inr ne ↦ h.outside i (active-other i ne ∙ e)
    ];
  }
