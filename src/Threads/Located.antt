-- ===== src/Threads/Located.antt =====
-- What the invariant says of every state that a run reaches.
use eecs.Base.{
  ℕ, ◌+◌, ◌≤◌, ◌<◌, ◌≡◌, ◌≢◌, refl, sym, ap, subst, ◌∙◌, ◌⊎◌, inl, inr, true, false, List, [], ◌∷◌,
  Option, none, some, arith, Bool-cases, ltb,
}
use eecs.Threads.State.{Queue, ready_queue, mutex_queue, join_queue, same_queue, Library}
use eecs.Threads.Places.{
  Place, in_queue, on_cpu, gone, unborn, is_in, count, same_queue_refl, eq_of_same_queue,
  eq_of_is_in,
}
use eecs.Threads.Invariant.{Stage, future, alive, over, stage_of, Allowed, Core, Settled}
use eecs.Threads.Invariant.Switches.{front-alive}
use eecs.Threads.Runs.{Reach, Reach-Settled}

-- A mutex that is free has no waiting thread.
pub Reach-mutex :
    (s : Library) (m : ℕ) → Reach s → s.status m ≡ false → s.queues (mutex_queue m) ≡ []
Reach-mutex s m r free =
    let (stage, v) = Reach-Settled r in by_queue v.core (s.queues (mutex_queue m)) refl
  where
    by_queue :
        {stage : ℕ → Stage} {at : ℕ → Place}
        → Core stage at s
        → (l : List ℕ) → s.queues (mutex_queue m) ≡ l
        → s.queues (mutex_queue m) ≡ []
    by_queue v [] e = e
    by_queue {stage} {at} v (w ∷ rest) e =
        let place = (front-alive s (mutex_queue m) w rest e v).0 in
        let held = subst (Allowed stage s.status) place (v.allowed w) in
        absurd (ground (arith, held, free))

-- The thread is on the CPU or in a queue.
abbrev pub Located : Library → ℕ → Type 0
Located s x = (s.running_thread ≡ some x) ⊎ ((q : Queue) × (count x (s.queues q) ≡ 1))

-- How often a thread is in two different queues together, or in one.
abbrev pub Once : Library → ℕ → Type 0
Once s x =
    ((q : Queue) → count x (s.queues q) ≤ 1)
    × ((q r : Queue) → same_queue q r ≡ false → count x (s.queues q) + count x (s.queues r) ≤ 1)
    × (s.running_thread ≡ some x → (q : Queue) → count x (s.queues q) ≡ 0)

is_in-once : (p : Place) (q r : Queue) → same_queue q r ≡ false → is_in p q + is_in p r ≤ 1
is_in-once (in_queue k) q r ne = elim (Bool-cases (same_queue q k)) [
  | inl a ↦ elim (Bool-cases (same_queue r k)) [
    | inl b ↦ absurd (clash a b)
    | inr b ↦ rw (a, b) (omega arith)
  ]
  | inr a ↦ rw a (elim (Bool-cases (same_queue r k)) [
    | inl b ↦ rw b (omega arith)
    | inr b ↦ rw b (omega arith)
  ])
]
  where
    clash : same_queue q k ≡ true → same_queue r k ≡ true → ⊥
    clash a b =
        let e = eq_of_same_queue q k a ∙ sym (eq_of_same_queue r k b) in
        let f = subst (λ x. same_queue x r ≡ false) e ne in
        absurd (ground (arith, f, same_queue_refl r))
is_in-once on_cpu q r ne = omega arith
is_in-once gone q r ne = omega arith
is_in-once unborn q r ne = omega arith

is_in-one : (p : Place) (q : Queue) → is_in p q ≤ 1
is_in-one (in_queue k) q = elim (Bool-cases (same_queue q k)) [
  | inl b ↦ rw b (omega arith)
  | inr b ↦ rw b (omega arith)
]
is_in-one on_cpu q = omega arith
is_in-one gone q = omega arith
is_in-one unborn q = omega arith

-- The stage of a TCB that has been created and is not destroyed, between two calls.
alive_of :
    {stage : ℕ → Stage} {at : ℕ → Place} {s : Library} (x : ℕ)
    → Core stage at s
    → s.previous_thread ≡ none
    → x < s.next_tcb
    → s.expired x ≡ false
    → stage x ≡ alive
alive_of {stage} {at} {s} x v previous h e = by_stage (stage x) refl
  where
    none-some : ¬ (Path (Option ℕ) none (some x))
    none-some k = cc

    by_stage : (g : Stage) → stage x ≡ g → stage x ≡ alive
    by_stage alive q = q
    by_stage future q = absurd (v.ages.born x h q)
    by_stage over q = elim (v.ages.destroyed x q) [
      | inl d ↦ absurd (ground (arith, d, e))
      | inr p ↦ absurd (none-some (sym previous ∙ p))
    ]

Settled-previous : {stage : ℕ → Stage} {s : Library} → Settled stage s → s.previous_thread ≡ none
Settled-previous v = elim (v.cpu) [ inl (t, c) ↦ c.no_previous | inr i ↦ i.no_previous ]

-- In every state between two calls, a thread that has been created and whose TCB is not destroyed is
-- on the CPU or in a queue, in one queue at most and there once, and in none while it is on the CPU.
pub Reach-Located :
    (s : Library) (x : ℕ) → Reach s → x < s.next_tcb → s.expired x ≡ false → Located s x × Once s x
Reach-Located s x r h e =
    let (stage, v) = Reach-Settled r in
    (
      by_place v (v.at x) refl (alive_of x v.core (Settled-previous v) h e),
      (
        λ q. rw (v.core.counts q x) (is_in-one (v.at x) q),
        λ q k ne. rw (v.core.counts q x) (rw (v.core.counts k x) (is_in-once (v.at x) q k ne)),
        λ run q. v.core.counts q x ∙ ap (λ p. is_in p q) (on v run),
      ),
    )
  where
    over-alive : ¬ (Path Stage over alive)
    over-alive k = cc

    future-alive : ¬ (Path Stage future alive)
    future-alive k = cc

    same : {a b : ℕ} → Path (Option ℕ) (some a) (some b) → a ≡ b
    same q = cc

    none-some : ¬ (Path (Option ℕ) none (some x))
    none-some k = cc

    on : {stage : ℕ → Stage} (v : Settled stage s) → s.running_thread ≡ some x → v.at x ≡ on_cpu
    on v run = elim (v.cpu) [
      | inl (t, c) ↦ ap v.at (same (sym run ∙ c.running)) ∙ c.here
      | inr i ↦ absurd (none-some (sym i.running ∙ run))
    ]

    by_place :
        {stage : ℕ → Stage} (v : Settled stage s) (p : Place)
        → v.at x ≡ p
        → stage x ≡ alive
        → Located s x
    by_place v (in_queue q) k live =
        inr (q, v.core.counts q x ∙ ap (λ p. is_in p q) k ∙ (rw (same_queue_refl q) refl))
    by_place v on_cpu k live = elim (v.cpu) [
      | inl (t, c) ↦ inl (c.running ∙ ap some (sym (c.alone x k)))
      | inr i ↦ absurd (i.nobody x k)
    ]
    by_place v gone k live = absurd (over-alive (ap stage_of (sym k) ∙ v.core.linked x ∙ live))
    by_place v unborn k live = absurd (future-alive (ap stage_of (sym k) ∙ v.core.linked x ∙ live))

-- In every state between two calls, a thread waits in `join` only for a thread whose TCB has been
-- created and is not destroyed.
pub Reach-join :
    (s : Library) (x t : ℕ)
    → Reach s
    → count x (s.queues (join_queue t)) ≢ 0
    → (t < s.next_tcb) × (s.expired t ≡ false)
Reach-join s x t r waits =
    let (stage, v) = Reach-Settled r in
    let place =
      eq_of_is_in (v.at x) (join_queue t) (λ z. waits (v.core.counts (join_queue t) x ∙ z)) in
    let live = subst (Allowed stage s.status) place (v.core.allowed x) in
    (created v.core live, undestroyed v.core live)
  where
    future_clash : (g : Stage) → g ≡ alive → g ≢ future
    future_clash g a b = cc

    over_clash : (g : Stage) → g ≡ alive → g ≢ over
    over_clash g a b = cc

    created :
        {stage : ℕ → Stage} {at : ℕ → Place} → Core stage at s → stage t ≡ alive → t < s.next_tcb
    created {stage} v live = elim (Bool-cases (ltb t s.next_tcb)) [
      | inl y ↦ ground (arith, y)
      | inr n ↦ absurd (future_clash (stage t) live (v.ages.fresh t (ground (arith, n))))
    ]

    undestroyed :
        {stage : ℕ → Stage} {at : ℕ → Place}
        → Core stage at s
        → stage t ≡ alive
        → s.expired t ≡ false
    undestroyed {stage} v live = elim (Bool-cases (s.expired t)) [
      | inl y ↦ absurd (over_clash (stage t) live (v.ages.expired_over t y))
      | inr n ↦ n
    ]

-- Between two calls interrupts are enabled, and the CPU is suspended only if no thread is ready.
pub Reach-cpu :
    (s : Library)
    → Reach s
    → (s.enabled ≡ true) × (s.running_thread ≡ none → s.queues ready_queue ≡ [])
Reach-cpu s r =
    let (stage, v) = Reach-Settled r in
    elim (v.cpu) [
      | inl (t, c) ↦ (c.interrupts, λ k. absurd (none-some t (sym k ∙ c.running)))
      | inr i ↦ (i.interrupts, λ k. i.none_ready)
    ]
  where
    none-some : (t : ℕ) → ¬ (Path (Option ℕ) none (some t))
    none-some t k = cc
