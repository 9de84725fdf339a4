-- ===== src/DiskScheduler/Requesting.antt =====
-- A requester's turn (Project1/scheduler.cpp).
use eecs.Base.{
  ℕ, suc, ◌<◌, ◌≡◌, ◌≢◌, refl, sym, ap, ◌∙◌, inl, inr, Bool, true, false, not, ◌||◌, List, [], ◌∷◌,
  ◌++◌, length, length-append, ◌==◌, if◌then◌else◌, arith,
}
use eecs.DiskScheduler.{Done, last_pending, pending, served, set_done, request}
use eecs.DiskScheduler.Requesters.{System, is_pending, no_tracks, pop_track}
use eecs.DiskScheduler.Counts.{
  count_if, count_if-same, count_if-drop, occurrences, occurrences-append,
}
use eecs.DiskScheduler.Turns.{
  waits, active, waiting, one_if, Consistent, ℕ-cases, set_done_self, set_done-ne,
}

module _ (n : ℕ) (s : System) (h : Consistent n s) (req_i track : ℕ) (ts : List ℕ)
    (its : s.tracks req_i ≡ track ∷ ts)
    (free : is_pending (s.monitor.requester_done req_i) ≡ false) where
  abbrev entry : Done
  entry = if no_tracks ts then last_pending else pending

  abbrev done' : ℕ → Done
  done' = set_done s.monitor.requester_done req_i entry

  abbrev tracks' : ℕ → List ℕ
  tracks' = pop_track s.tracks req_i ts

  -- The requester has no request in the queue: it has one to make, so it was not its last.
  idle : (d : Done) → s.monitor.requester_done req_i ≡ d → d ≡ served
  idle served e = refl
  idle pending e = let c = ap is_pending e in cc
  idle last_pending e =
      let a = h.last req_i e in let b : no_tracks (s.tracks req_i) ≡ false = ap no_tracks its in cc

  entry-waits : (b : Bool) → waits (if b then last_pending else pending) ≡ true
  entry-waits true = refl
  entry-waits false = refl

  done-own : done' req_i ≡ entry
  done-own = set_done_self s.monitor.requester_done req_i entry

  done-other : (i : ℕ) → i ≢ req_i → done' i ≡ s.monitor.requester_done i
  done-other i ne = set_done-ne s.monitor.requester_done req_i i entry ne

  tracks-own : tracks' req_i ≡ ts
  tracks-own = rw (same req_i) refl
    where
      same : (i : ℕ) → (i == i) ≡ true
      same i = ground arith

  tracks-other : (i : ℕ) → i ≢ req_i → tracks' i ≡ s.tracks i
  tracks-other i ne = rw (other req_i i ne) refl
    where
      other : (i j : ℕ) → j ≢ i → (j == i) ≡ false
      other i j ne = ground arith

  request-occurrences :
      (i : ℕ)
      → occurrences i (s.monitor.disk_queue ++ (req_i, track) ∷ []) ≡ (
          if req_i == i
          then suc (occurrences i s.monitor.disk_queue)
          else occurrences i s.monitor.disk_queue)
  unfolding occurrences
  request-occurrences i =
      ground (arith, occurrences-append i s.monitor.disk_queue ((req_i, track) ∷ []))

  is_served : s.monitor.requester_done req_i ≡ served
  is_served = idle (s.monitor.requester_done req_i) refl

  own-waits : waits (done' req_i) ≡ true
  own-waits = ap waits done-own ∙ entry-waits (no_tracks ts)

  request-entries :
      (i : ℕ)
      → occurrences i (s.monitor.disk_queue ++ (req_i, track) ∷ []) ≡ one_if (waits (done' i))
  request-entries i =
      let a = request-occurrences i in
      let b = h.entries i in
      elim (ℕ-cases i req_i) [
        | inl e ↦
            let c : one_if (waits (done' i)) ≡ 1 =
              ap (λ x. one_if (waits (done' x))) e ∙ ap one_if own-waits in
            let d : one_if (waiting s i) ≡ 0 =
              ap (λ x. one_if (waiting s x)) e ∙ ap (λ x. one_if (waits x)) is_served in
            ground (arith, a, b, c, d, e)
        | inr ne ↦
            let c : one_if (waits (done' i)) ≡ one_if (waiting s i) =
              ap (λ d. one_if (waits d)) (done-other i ne) in
            ground (arith, a, b, c, ne)
      ]

  abbrev active' : ℕ → Bool
  active' i = not (no_tracks (tracks' i)) || waits (done' i)

  or_true : (a b : Bool) → b ≡ true → (a || b) ≡ true
  or_true true b e = refl
  or_true false b e = e

  active-same : (i : ℕ) → active s i ≡ active' i
  active-same i = elim (ℕ-cases i req_i) [
    | inl e ↦
        ap (active s) e
        ∙ ap (λ x. not (no_tracks x) || waiting s req_i) its
        ∙ sym (
            ap active' e
            ∙ or_true (not (no_tracks (tracks' req_i))) (waits (done' req_i)) own-waits)
    | inr ne ↦
        ap (λ d. not (no_tracks (s.tracks i)) || waits d) (sym (done-other i ne))
        ∙ ap (λ x. not (no_tracks x) || waits (done' i)) (sym (tracks-other i ne))
  ]

  in_range : req_i < n
  in_range = h.outside req_i (ap (λ x. not (no_tracks x) || waiting s req_i) its)

  request-queued :
      length (s.monitor.disk_queue ++ (req_i, track) ∷ []) ≡ count_if (λ i. waits (done' i)) n
  request-queued = omega (
    arith,
    length-append s.monitor.disk_queue ((req_i, track) ∷ []),
    h.queued,
    count_if-drop (λ i. waits (done' i)) (waiting s) n req_i in_range own-waits (ap waits is_served)
        (λ i ne. ap waits (done-other i ne)),
  )

  entry-last : (b : Bool) → (if b then last_pending else pending) ≡ last_pending → b ≡ true
  entry-last true e = refl
  entry-last false e = cc

  entry-more : (b : Bool) → (if b then last_pending else pending) ≡ pending → b ≡ false
  entry-more true e = cc
  entry-more false e = refl

  pub request-Consistent : Consistent n (record {
    monitor = request req_i track (no_tracks ts) s.monitor;
    tracks = pop_track s.tracks req_i ts;
  })
  unfolding request
  request-Consistent = record {
    requester_num = h.requester_num ∙ count_if-same (active s) active' n (λ i k. active-same i);
    queued = request-queued;
    entries = request-entries;
    last = λ i e. elim (ℕ-cases i req_i) [
      | inl same ↦
          ap (λ x. no_tracks (tracks' x)) same
          ∙ ap no_tracks tracks-own
          ∙ entry-last (no_tracks ts) (sym (ap done' same ∙ done-own) ∙ e)
      | inr ne ↦ ap no_tracks (tracks-other i ne) ∙ h.last i (sym (done-other i ne) ∙ e)
    ];
    more = λ i e. elim (ℕ-cases i req_i) [
      | inl same ↦
          ap (λ x. no_tracks (tracks' x)) same
          ∙ ap no_tracks tracks-own
          ∙ entry-more (no_tracks ts) (sym (ap done' same ∙ done-own) ∙ e)
      | inr ne ↦ ap no_tracks (tracks-other i ne) ∙ h.more i (sym (done-other i ne) ∙ e)
    ];
    outside = λ i e. h.outside i (active-same i ∙ e);
  }
