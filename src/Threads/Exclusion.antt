-- ===== src/Threads/Exclusion.antt =====
-- What the calls of other threads do to a mutex that a thread holds.
use eecs.Base.{
  ℕ, ◌≡◌, ◌≢◌, ap, subst, ◌∙◌, inl, inr, Bool, true, false, ◌&&◌, List, [], ◌∷◌, Option, none, some,
  ◌==◌, arith, Bool-cases,
}
use eecs.Threads.State.{
  Queue, ready_queue, mutex_queue, cv_queue, join_queue, Point, starting, enabling, reacquiring,
  Library, push, take_lock, interrupt_disable, interrupt_enable, save_point, start_next, resume,
  switch, swap_helper,
}
use eecs.Threads.Calls.{
  lock, unlock, wait, signal, broadcast, yield, join, create_thread, finish, leave_cpu,
  check_ownership, is_owner, hand_over, wake_first, wake_all, is_empty,
}
use eecs.Threads.Runs.{
  Call, locks, unlocks, signals, broadcasts, joins, waits, yields, finishes, creates, perform,
}

-- Thread `o` holds the mutex `m`.
pub record Held (m o : ℕ) (s : Library) : Type 0 where
  pub taken : s.status m ≡ true
  pub owner : s.occupy_thread m ≡ some o

owner_is :
    {t o : ℕ} (b : Bool) (owner : Option ℕ) (s : Library)
    → owner ≡ some o
    → b && is_owner owner t s ≡ true
    → o ≡ t
owner_is b none s q w = cc
owner_is {t} {o} b (some p) s q w = same q ∙ ground (arith, w)
  where
    same : Path (Option ℕ) (some p) (some o) → o ≡ p
    same q = cc

module _ (m o : ℕ) where
  take_lock-Held : (n t : ℕ) (s : Library) → m ≢ n → Held m o s → Held m o (take_lock n t s)
  take_lock-Held n t s ne v = elim (Bool-cases (m == n)) [
    | inl same ↦ absurd (ne (ground (arith, same)))
    | inr other ↦ record { taken = rw other (v.taken); owner = rw other (v.owner) }
  ]

  resume-Held :
      (p : Point) (t : ℕ) (next : Library → Library) (s : Library)
      → ((s : Library) → Held m o s → Held m o (next s))
      → Held m o s
      → Held m o (resume p t next s)
  unfolding resume
  resume-Held starting t next s h v = record { taken = v.taken; owner = v.owner }
  resume-Held enabling t next s h v = record { taken = v.taken; owner = v.owner }
  resume-Held (reacquiring n) t next s h v = elim (Bool-cases (s.status n)) [
    | inl held ↦ rw (held, resume) (h _ (record { taken = v.taken; owner = v.owner }))
    | inr free ↦
        let w = take_lock-Held n t s (λ e. absurd (clash free e)) v in
        rw (free, resume) (record { taken = w.taken; owner = w.owner })
  ]
    where
      clash : s.status n ≡ false → m ≢ n
      clash free e = absurd (ground (arith, ap s.status e, v.taken, free))

  switch-Held : (ready : List ℕ) (s : Library) → Held m o s → Held m o (switch ready s)
  unfolding switch
  switch-Held [] s v = record { taken = v.taken; owner = v.owner }
  switch-Held (t ∷ rest) s v =
      resume-Held (s.point t) t (switch rest) (start_next t rest s) (switch-Held rest)
        (record { taken = v.taken; owner = v.owner })

  swap-Held : (t : ℕ) (p : Point) (s : Library) → Held m o s → Held m o (swap_helper t p s)
  unfolding swap_helper
  swap-Held t p s v =
      switch-Held (s.queues ready_queue) (save_point t p s)
        (record { taken = v.taken; owner = v.owner })

  hand_over-Held :
      (n : ℕ) (l : List ℕ) (s : Library) → m ≢ n → Held m o s → Held m o (hand_over l n s)
  hand_over-Held n [] s ne v = elim (Bool-cases (m == n)) [
    | inl same ↦ absurd (ne (ground (arith, same)))
    | inr other ↦ record { taken = rw other (v.taken); owner = v.owner }
  ]
  hand_over-Held n (w ∷ rest) s ne v =
      let k = take_lock-Held n w s ne v in record { taken = k.taken; owner = k.owner }

  wake_all-Held : (q : Queue) (l : List ℕ) (s : Library) → Held m o s → Held m o (wake_all q l s)
  unfolding wake_all
  wake_all-Held q [] s v = v
  wake_all-Held q (w ∷ rest) s v =
      wake_all-Held q rest (wake_first q (w ∷ rest) s) (record { taken = v.taken; owner = v.owner })

  wake_first-Held :
      (q : Queue) (l : List ℕ) (s : Library) → Held m o s → Held m o (wake_first q l s)
  wake_first-Held q [] s v = v
  wake_first-Held q (w ∷ rest) s v = record { taken = v.taken; owner = v.owner }

  leave_cpu-Held : (t : ℕ) (l : List ℕ) (s : Library) → Held m o s → Held m o (leave_cpu t l s)
  leave_cpu-Held t [] s v = record { taken = v.taken; owner = v.owner }
  leave_cpu-Held t (w ∷ rest) s v =
      switch-Held (w ∷ rest) _ (record { taken = v.taken; owner = v.owner })

  module _ (t : ℕ) (s : Library) (apart : o ≢ t) (v : Held m o s) where
    kept : Held m o (interrupt_disable s)
    kept = record { taken = v.taken; owner = v.owner }

    again : {s' : Library} → Held m o s' → Held m o (interrupt_enable s')
    again w = record { taken = w.taken; owner = w.owner }

    -- A mutex that the caller owns is another one.
    not_own : (n : ℕ) → check_ownership n t (interrupt_disable s) ≡ true → m ≢ n
    unfolding check_ownership
    not_own n own e = absurd (
        apart (
          owner_is (s.status n) (s.occupy_thread n) (interrupt_disable s)
            (subst (λ k. s.occupy_thread k ≡ some o) e v.owner) own))

    lock-Held : (n : ℕ) → Held m o (lock n t s)
    unfolding lock
    lock-Held n = elim (Bool-cases (s.status n)) [
      | inl held ↦ rw held (
          swap-Held t enabling (push (mutex_queue n) t (interrupt_disable s))
            (record { taken = v.taken; owner = v.owner }))
      | inr free ↦ rw free (again (take_lock-Held n t (interrupt_disable s) (clash free) kept))
    ]
      where
        clash : s.status n ≡ false → m ≢ n
        clash free e = absurd (ground (arith, ap s.status e, v.taken, free))

    unlock-Held : (n : ℕ) → Held m o (unlock n t s).1
    unfolding unlock
    unlock-Held n = elim (Bool-cases (check_ownership n t (interrupt_disable s))) [
      | inl own ↦ rw own (
          again (
            hand_over-Held n (s.queues (mutex_queue n)) (interrupt_disable s) (not_own n own) kept))
      | inr other ↦ rw other (again kept)
    ]

    wait-Held : (c n : ℕ) → Held m o (wait c n t s).1
    unfolding wait
    wait-Held c n = elim (Bool-cases (check_ownership n t (interrupt_disable s))) [
      | inl own ↦ rw own (
          swap-Held t (reacquiring n) _ (
            hand_over-Held n (s.queues (mutex_queue n)) (push (cv_queue c) t (interrupt_disable s))
              (not_own n own) (record { taken = v.taken; owner = v.owner })))
      | inr other ↦ rw other (again kept)
    ]

    yield-Held : Held m o (yield t s)
    unfolding yield
    yield-Held = elim (Bool-cases (is_empty (s.queues ready_queue))) [
      | inl empty ↦ rw empty (again kept)
      | inr others ↦ rw others (
          swap-Held t enabling (push ready_queue t (interrupt_disable s))
            (record { taken = v.taken; owner = v.owner }))
    ]

    join-Held : (target : ℕ) → Held m o (join target t s)
    unfolding join
    join-Held target = elim (Bool-cases (s.expired target)) [
      | inl e ↦ rw e (again kept)
      | inr e ↦ rw e (
          swap-Held t enabling (push (join_queue target) t (interrupt_disable s))
            (record { taken = v.taken; owner = v.owner }))
    ]

    create-Held : (allocated : Bool) → Held m o (create_thread allocated s).1
    unfolding create_thread
    create-Held false = again kept
    create-Held true = record { taken = v.taken; owner = v.owner }

    rest-Held : (c : ℕ) → Held m o (signal c s) × Held m o (broadcast c s) × Held m o (finish t s)
    unfolding signal broadcast finish
    rest-Held c = (
      again (wake_first-Held (cv_queue c) (s.queues (cv_queue c)) (interrupt_disable s) kept),
      again (wake_all-Held (cv_queue c) (s.queues (cv_queue c)) (interrupt_disable s) kept),
      leave_cpu-Held t _ _
          (wake_all-Held (join_queue t) (s.queues (join_queue t)) (interrupt_disable s) kept),
    )

-- While a thread holds a mutex, no call of another thread takes the mutex from it, and neither does
-- what the switches in that call let further threads do.
pub perform-Held :
    (m o t : ℕ) (k : Call) (s : Library) → o ≢ t → Held m o s → Held m o (perform k t s)
perform-Held m o t (locks n) s ne v = lock-Held m o t s ne v n
perform-Held m o t (unlocks n) s ne v = unlock-Held m o t s ne v n
perform-Held m o t (waits c n) s ne v = wait-Held m o t s ne v c n
perform-Held m o t yields s ne v = yield-Held m o t s ne v
perform-Held m o t (joins target) s ne v = join-Held m o t s ne v target
perform-Held m o t (creates allocated) s ne v = create-Held m o t s ne v allocated
perform-Held m o t (signals c) s ne v = (rest-Held m o t s ne v c).0
perform-Held m o t (broadcasts c) s ne v = (rest-Held m o t s ne v c).1
perform-Held m o t finishes s ne v = (rest-Held m o t s ne v 0).2
