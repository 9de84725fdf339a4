-- ===== src/DiskScheduler/Live.antt =====
-- The threads of the disk scheduler (Project1/scheduler.cpp) together, in any order of their turns.
use eecs.Base.{
  ℕ, zero, suc, ◌+◌, ◌*◌, ◌≤◌, ◌<◌, ◌≡◌, ◌≢◌, refl, sym, ap, subst, ◌∙◌, ◌⊎◌, inl, inr, Bool, true,
  false, not, ◌||◌, List, [], ◌∷◌, length, length-append, Option, none, some, ◌==◌, if◌then◌else◌,
  arith, Bool-cases, Option-cases,
}
use eecs.DiskScheduler.{
  Done, last_pending, pending, served, serve, request, min, Reach, start, serves, requests,
  target_of,
}
use eecs.DiskScheduler.Full.{Filled, Reach-Filled, length-erase_at, target_of-bound}
use eecs.DiskScheduler.Requesters.{
  System, Turn, server, requester, is_pending, no_tracks, pop_track, requester_turn, server_turn,
  turn, turns_after, schedule,
}
use eecs.DiskScheduler.Counts.{count_if, count_if-zero, count_if-exists, occurrences}
use eecs.DiskScheduler.Turns.{waits, active, waiting, Consistent, ℕ-cases}
use eecs.DiskScheduler.Serving.{serve-Consistent}
use eecs.DiskScheduler.Requesting.{request-Consistent}

-- The tracks that requesters 0 to n - 1 have left.
unfoldable pub work : ℕ → (ℕ → List ℕ) → ℕ
work zero tracks = 0
work (suc n) tracks = work n tracks + length (tracks n)

-- What is left to do: a turn of a requester and one of the server for each track.
abbrev pub effort : ℕ → System → ℕ
effort n s = 2 * work n s.tracks + length s.monitor.disk_queue

pop_track_self : (tracks : ℕ → List ℕ) (i : ℕ) (ts : List ℕ) → pop_track tracks i ts i ≡ ts
pop_track_self tracks i ts = rw (same i) refl
  where
    same : (i : ℕ) → (i == i) ≡ true
    same i = ground arith

pop_track-ne :
    (tracks : ℕ → List ℕ) (i j : ℕ) (ts : List ℕ) → j ≢ i → pop_track tracks i ts j ≡ tracks j
pop_track-ne tracks i j ts ne = rw (other i j ne) refl
  where
    other : (i j : ℕ) → j ≢ i → (j == i) ≡ false
    other i j ne = ground arith

work-same : (n : ℕ) (f g : ℕ → List ℕ) → ((i : ℕ) → i < n → f i ≡ g i) → work n f ≡ work n g
unfolding work
work-same zero f g e = refl
work-same (suc n) f g e =
    omega (arith, work-same n f g (λ i k. e i (omega (arith, k))), ap length (e n (omega arith)))

work-pop_track :
    (n i track : ℕ) (ts : List ℕ) (tracks : ℕ → List ℕ)
    → i < n
    → tracks i ≡ track ∷ ts
    → work n tracks ≡ suc (work n (pop_track tracks i ts))
unfolding work
work-pop_track zero i track ts tracks k e = absurd (omega (arith, k))
work-pop_track (suc n) i track ts tracks k e = elim (ℕ-cases n i) [
  | inl same ↦
      let a =
        work-same n tracks (pop_track tracks i ts)
          (λ j l. sym (pop_track-ne tracks i j ts (λ z. omega (arith, z, l, same)))) in
      let b : length (tracks n) ≡ suc (length ts) = ap length (ap tracks same ∙ e) in
      let c : length (pop_track tracks i ts n) ≡ length ts =
        ap length (ap (pop_track tracks i ts) same ∙ pop_track_self tracks i ts) in
      omega (arith, a, b, c)
  | inr ne ↦
      let a = work-pop_track n i track ts tracks (ground (arith, ne, k)) e in
      let b = ap length (pop_track-ne tracks i n ts ne) in omega (arith, a, b)
]

-- All requests have been made and served.
pub record Finished (s : System) : Type 0 where
  pub no_requester : s.monitor.requester_num ≡ 0
  pub no_request : s.monitor.disk_queue ≡ []
  pub no_track : (i : ℕ) → s.tracks i ≡ []

turns_after-none : (ts : List Turn) → turns_after ts none ≡ none
turns_after-none [] = refl
turns_after-none (t ∷ ts) = refl

no_tracks-nil : (ts : List ℕ) → no_tracks ts ≡ true → ts ≡ []
no_tracks-nil [] e = refl
no_tracks-nil (t ∷ ts) e = cc

module _ (m n : ℕ) (some_room : 1 ≤ m) (some_requester : 1 ≤ n) where
  record Good (s : System) : Type 0 where
    pub reach : Reach m n s.monitor
    pub consistent : Consistent n s

  some_inj : {a b : System} → some a ≡ some b → a ≡ b
  some_inj e = cc

  -- A turn keeps this, and takes one off the effort.
  abbrev Takes : System → System → Type 0
  Takes s s' = Good s' × (effort n s ≡ suc (effort n s'))

  or_false : (a b : Bool) → (a || b) ≡ false → (a ≡ false) × (b ≡ false)
  or_false a b e = ground (arith, e)

  not-false : (b : Bool) → not b ≡ false → b ≡ true
  not-false b e = ground (arith, e)

  serve-Takes :
      (s : System)
      → Good s
      → 1 ≤ s.monitor.requester_num
      → s.monitor.disk_queue_full ≡ true
      → Takes s (record s { monitor = serve s.monitor })
  serve-Takes s g left full =
      let f = Reach-Filled m n s.monitor some_room some_requester g.reach in
      let k : 0 < length s.monitor.disk_queue = ground (arith, f.full, full, left, some_room) in
      (
        record {
          reach = serves g.reach left full;
          consistent = serve-Consistent n s g.consistent k;
        },
        unfold serve in
            omega (
              arith,
              length-erase_at s.monitor.disk_queue (target_of s.monitor)
                  (target_of-bound s.monitor k),
            ),
      )

  server-Takes : (s s' : System) → Good s → server_turn s ≡ some s' → Takes s s'
  unfolding server_turn
  server-Takes s s' g e =
      elim (Bool-cases (s.monitor.requester_num == 0 || not s.monitor.disk_queue_full)) [
        | inl b ↦
            let k : Path (Option System) none (some s') =
              sym (ap (λ b. if b then none else some (record s { monitor = serve s.monitor })) b)
              ∙ e in
            cc
        | inr b ↦
            let p = or_false (s.monitor.requester_num == 0) (not s.monitor.disk_queue_full) b in
            subst (Takes s)
              (some_inj (
                sym (ap (λ b. if b then none else some (record s { monitor = serve s.monitor })) b)
                ∙ e))
              (serve-Takes s g (ground (arith, p.0)) (not-false s.monitor.disk_queue_full p.1))
      ]

  module _ (s : System) (g : Good s) (i track : ℕ) (ts : List ℕ)
      (its : s.tracks i ≡ track ∷ ts) where
    abbrev moved : System
    moved = record {
      monitor = request i track (no_tracks ts) s.monitor;
      tracks = pop_track s.tracks i ts;
    }

    not_pending :
        is_pending (s.monitor.requester_done i) ≡ false → s.monitor.requester_done i ≢ pending
    not_pending e k = let c = ap is_pending k in cc

    request-Takes :
        s.monitor.disk_queue_full ≡ false
        → is_pending (s.monitor.requester_done i) ≡ false
        → Takes s moved
    request-Takes room free = (
      record {
        reach = requests i track (no_tracks ts) g.reach room (not_pending free);
        consistent = request-Consistent n s g.consistent i track ts its free;
      },
      unfold request in
          omega (
            arith,
            work-pop_track n i track ts s.tracks
                (g.consistent.outside i (ap (λ x. not (no_tracks x) || waiting s i) its)) its,
            length-append s.monitor.disk_queue ((i, track) ∷ []),
          ),
    )

    turn_taken : (s' : System) → requester_turn i (track ∷ ts) s ≡ some s' → Takes s s'
    unfolding requester_turn
    turn_taken s' e =
        elim (Bool-cases (s.monitor.disk_queue_full || is_pending (s.monitor.requester_done i))) [
          | inl b ↦
              let k : Path (Option System) none (some s') =
                sym (ap (λ b. if b then none else some moved) b) ∙ e in
              cc
          | inr b ↦
              let p =
                or_false s.monitor.disk_queue_full (is_pending (s.monitor.requester_done i)) b in
              subst (Takes s) (some_inj (sym (ap (λ b. if b then none else some moved) b) ∙ e))
                (request-Takes p.0 p.1)
        ]

  requester-Takes :
      (s s' : System) (i : ℕ) (xs : List ℕ)
      → Good s
      → s.tracks i ≡ xs
      → requester_turn i xs s ≡ some s'
      → Takes s s'
  unfolding requester_turn
  requester-Takes s s' i [] g its e = cc
  requester-Takes s s' i (track ∷ ts) g its e = turn_taken s g i track ts its s' e

  turn-Takes : (t : Turn) (s s' : System) → Good s → turn t s ≡ some s' → Takes s s'
  unfolding turn
  turn-Takes server s s' g e = server-Takes s s' g e
  turn-Takes (requester i) s s' g e = requester-Takes s s' i (s.tracks i) g refl e

  turns_after-Takes :
      (ts : List Turn) (o : Option System) (s s' : System)
      → Good s
      → o ≡ some s
      → turns_after ts o ≡ some s'
      → Good s' × (length ts + effort n s' ≡ effort n s)
  turns_after-Takes [] o s s' g a e =
      (subst Good (some_inj (sym a ∙ e)) g, omega (arith, ap (effort n) (some_inj (sym e ∙ a))))
  turns_after-Takes (t ∷ ts) none s s' g a e = cc
  turns_after-Takes (t ∷ ts) (some r) s s' g a e =
      let same : s ≡ r = some_inj (sym a) in
      elim (Option-cases (turn t r)) [
        | inl k ↦
            let c : Path (Option System) none (some s') =
              sym (ap (turns_after ts) k ∙ turns_after-none ts) ∙ e in
            cc
        | inr (s1, k) ↦
            let tk = turn-Takes t r s1 (subst Good same g) k in
            let ih = turns_after-Takes ts (turn t r) s1 s' tk.0 k e in
            (ih.0, omega (arith, ih.1, tk.1, ap (effort n) same))
      ]

  parts : (a b : Bool) → (not a || b) ≡ false → (a ≡ true) × (b ≡ false)
  parts a b e = ground (arith, e)

  finished : (s : System) → Good s → s.monitor.requester_num ≡ 0 → Finished s
  finished s g z = record {
    no_requester = z;
    no_request = empty s.monitor.disk_queue (omega (arith, f.fits, small));
    no_track = λ i. no_tracks-nil (s.tracks i) (idle i (Bool-cases (active s i)));
  }
    where
      f : Filled m s.monitor
      f = Reach-Filled m n s.monitor some_room some_requester g.reach

      small : min s.monitor.requester_num m ≡ 0
      small = ground (arith, z)

      empty : (q : List (ℕ × ℕ)) → length q ≡ 0 → q ≡ []
      empty [] e = refl
      empty (d ∷ ds) e = absurd (omega (arith, e))

      idle : (i : ℕ) → (active s i ≡ true) ⊎ (active s i ≡ false) → no_tracks (s.tracks i) ≡ true
      idle i (inr e) = (parts (no_tracks (s.tracks i)) (waiting s i) e).0
      idle i (inl e) =
          let k =
            count_if-zero (active s) n i (sym g.consistent.requester_num ∙ z)
              (g.consistent.outside i e) in
          absurd (cc)

  -- There is room: a requester with a track has no request in the queue.
  requester_goes :
      (s : System) (i : ℕ) (xs : List ℕ) (d : Done)
      → s.monitor.disk_queue_full ≡ false
      → s.tracks i ≡ xs
      → s.monitor.requester_done i ≡ d
      → (not (no_tracks xs) || waits d) ≡ true
      → waits d ≡ false
      → (t : Turn) × (s' : System) × (turn t s ≡ some s')
  unfolding turn requester_turn
  requester_goes s i [] d room its e a w = absurd (cc)
  requester_goes s i (track ∷ ts) last_pending room its e a w = absurd (cc)
  requester_goes s i (track ∷ ts) pending room its e a w = absurd (cc)
  requester_goes s i (track ∷ ts) served room its e a w = (
    requester i,
    record { monitor = request i track (no_tracks ts) s.monitor; tracks = pop_track s.tracks i ts },
    ap (λ xs. requester_turn i xs s) its
        ∙ ap
            (λ b.
              if b
              then none
              else some (record {
                monitor = request i track (no_tracks ts) s.monitor;
                tracks = pop_track s.tracks i ts;
              }))
            (ap (λ b. b || is_pending (s.monitor.requester_done i)) room ∙ ap is_pending e),
  )

  server_goes :
      (s : System)
      → 1 ≤ s.monitor.requester_num
      → s.monitor.disk_queue_full ≡ true
      → (t : Turn) × (s' : System) × (turn t s ≡ some s')
  unfolding turn server_turn
  server_goes s k full =
      let go : (s.monitor.requester_num == 0 || not s.monitor.disk_queue_full) ≡ false =
        ground (arith, k, full) in
      (
        server,
        record s { monitor = serve s.monitor },
        ap (λ b. if b then none else some (record s { monitor = serve s.monitor })) go,
      )

  -- Some thread can go on, or all are done.
  progress :
      (s : System) → Good s → Finished s ⊎ ((t : Turn) × (s' : System) × (turn t s ≡ some s'))
  progress s g = elim (zero_or_more s.monitor.requester_num) [
    | inl z ↦ inl (finished s g z)
    | inr k ↦ elim (Bool-cases s.monitor.disk_queue_full) [
      | inl full ↦ inr (server_goes s k full)
      | inr room ↦
          let f = Reach-Filled m n s.monitor some_room some_requester g.reach in
          let less : length s.monitor.disk_queue < s.monitor.requester_num =
            ground (arith, f.fits, f.full, room) in
          let r =
            count_if-exists (waiting s) (active s) n
              (omega (arith, less, g.consistent.queued, g.consistent.requester_num)) in
          inr (
            requester_goes s r.0 (s.tracks r.0) (s.monitor.requester_done r.0) room refl refl r.2
              r.3)
    ]
  ]
    where
      zero_or_more : (k : ℕ) → (k ≡ 0) ⊎ (1 ≤ k)
      zero_or_more k = ground arith

  module _ (tracks : ℕ → List ℕ) (nonempty : (i : ℕ) → i < n → no_tracks (tracks i) ≡ false)
      (no_others : (i : ℕ) → n ≤ i → no_tracks (tracks i) ≡ true) where
    all_active : (k : ℕ) → k ≤ n → count_if (active (schedule m n tracks)) k ≡ k
    unfolding count_if
    all_active zero l = refl
    all_active (suc k) l =
        let e = nonempty k l in let ih = all_active k (omega (arith, l)) in ground (arith, e, ih)

    none_waits : (k : ℕ) → count_if (waiting (schedule m n tracks)) k ≡ 0
    unfolding count_if
    none_waits zero = refl
    none_waits (suc k) = none_waits k

    within : (i : ℕ) → (i < n) ⊎ (n ≤ i) → active (schedule m n tracks) i ≡ true → i < n
    within i (inl k) a = k
    within i (inr k) a = let e = no_others i k in absurd (ground (arith, e, a))

    start-Good : Good (schedule m n tracks)
    unfolding occurrences
    start-Good = record {
      reach = start;
      consistent = record {
        requester_num = sym (all_active n (omega arith));
        queued = sym (none_waits n);
        entries = λ i. refl;
        last = λ i e. cc;
        more = λ i e. cc;
        outside = λ i. within i (ground arith);
      };
    }

    -- From the start of any number of requesters that is at least one, each with a track at least, and with a
    -- limit of at least one, after any sequence of turns of the threads: it has at most as many turns as
    -- there are tracks, twice; what is left to do is the rest; and either all requests have been made
    -- and served and no requester is left, or some thread can go on.
    pub schedule-Live :
        (ts : List Turn) (s : System)
        → turns_after ts (some (schedule m n tracks)) ≡ some s
        → (length ts + effort n s ≡ 2 * work n tracks)
          × (Finished s ⊎ ((t : Turn) × (s' : System) × (turn t s ≡ some s')))
    schedule-Live ts s e =
        let r =
          turns_after-Takes ts (some (schedule m n tracks)) (schedule m n tracks) s start-Good refl
            e in
        (omega (arith, r.1), progress s r.0)
