-- ===== src/Threads/Waking.antt =====
-- The order in which `signal`, `broadcast` and `unlock` make threads ready (cv.cpp and mutex.cpp of
-- Project2).
use eecs.Base.{
  ℕ, ◌≡◌, ◌≢◌, refl, sym, ap, ◌∙◌, inl, inr, true, false, ◌&&◌, List, [], ◌∷◌, ◌++◌, Option, none,
  some, ◌==◌, arith, append-nil, append_assoc, take, drop, Bool-cases,
}
use eecs.Threads.State.{
  Queue, ready_queue, mutex_queue, cv_queue, same_queue, Library, interrupt_disable,
  interrupt_enable,
}
use eecs.Threads.Places.{same_queue_refl, eq_of_same_queue}
use eecs.Threads.Exclusion.{Held}
use eecs.Threads.Calls.{
  returns, unlock, signal, broadcast, check_ownership, is_owner, hand_over, wake_first, wake_all,
}

-- From `s` to `s'` the threads `moved` have gone from the queue `q`, where `left` is left, to the end
-- of the ready queue, and no other queue has changed.
pub record Moved (q : Queue) (moved left : List ℕ) (s s' : Library) : Type 0 where
  pub ready : s'.queues ready_queue ≡ s.queues ready_queue ++ moved
  pub waiting : s'.queues q ≡ left
  pub others : (r : Queue) → r ≢ ready_queue → r ≢ q → s'.queues r ≡ s.queues r

differs : (r q : Queue) → r ≢ q → same_queue r q ≡ false
differs r q ne = elim (Bool-cases (same_queue r q)) [
  | inl same ↦ absurd (ne (eq_of_same_queue r q same))
  | inr other ↦ other
]

module _ (q : Queue) (waits : q ≢ ready_queue) where
  wake_first-Moved :
      (w : ℕ) (rest : List ℕ) (s : Library) → Moved q (w ∷ []) rest s (wake_first q (w ∷ rest) s)
  wake_first-Moved w rest s = record {
    ready = rw (differs ready_queue q (λ e. waits (sym e))) refl;
    waiting = rw (differs q ready_queue waits, same_queue_refl q) refl;
    others = λ r a b. rw (differs r ready_queue a, differs r q b) refl;
  }

  wake_all-Moved : (l : List ℕ) (s : Library) → s.queues q ≡ l → Moved q l [] s (wake_all q l s)
  unfolding wake_all
  wake_all-Moved [] s e = record {
    ready = sym (append-nil (s.queues ready_queue));
    waiting = e;
    others = λ r a b. refl;
  }
  wake_all-Moved (w ∷ rest) s e =
      let first = wake_first-Moved w rest s in
      let all = wake_all-Moved rest (wake_first q (w ∷ rest) s) first.waiting in
      record {
        ready =
            all.ready
            ∙ ap (λ l. l ++ rest) first.ready
            ∙ append_assoc (s.queues ready_queue) (w ∷ []) rest;
        waiting = all.waiting;
        others = λ r a b. all.others r a b ∙ first.others r a b;
      }

  first-Moved :
      (l : List ℕ) (s : Library)
      → s.queues q ≡ l
      → Moved q (take 1 l) (drop 1 l) s (wake_first q l s)
  first-Moved [] s e = record {
    ready = sym (append-nil (s.queues ready_queue));
    waiting = e;
    others = λ r a b. refl;
  }
  first-Moved (w ∷ rest) s e = wake_first-Moved w rest s

around :
    {q : Queue} {moved left : List ℕ} {s s' : Library}
    → Moved q moved left (interrupt_disable s) s'
    → Moved q moved left s (interrupt_enable s')
around v = record { ready = v.ready; waiting = v.waiting; others = v.others }

cv_ready : (c : ℕ) → cv_queue c ≢ ready_queue
cv_ready c e = cc

-- `signal` makes the first thread that waits for the condition variable ready, if one waits, and
-- `broadcast` all of them, in the order in which they wait, behind the threads that are ready. No
-- other queue changes.
pub waking-Moved :
    (c : ℕ) (s : Library)
    → Moved
        (cv_queue c)
        (take 1 (s.queues (cv_queue c)))
        (drop 1 (s.queues (cv_queue c)))
        s
        (signal c s)
      × Moved (cv_queue c) (s.queues (cv_queue c)) [] s (broadcast c s)
unfolding signal broadcast
waking-Moved c s = (
  around (first-Moved (cv_queue c) (cv_ready c) (s.queues (cv_queue c)) (interrupt_disable s) refl),
  around
      (wake_all-Moved (cv_queue c) (cv_ready c) (s.queues (cv_queue c)) (interrupt_disable s) refl),
)

-- Who holds a mutex after an `unlock`, with the threads that waited for it: the first, or no one.
abbrev pub Granted : List ℕ → ℕ → Library → Type 0
Granted [] m s = s.status m ≡ false
Granted (w ∷ rest) m s = Held m w s

enabled-Granted :
    (l : List ℕ) (m : ℕ) (s : Library) → Granted l m s → Granted l m (interrupt_enable s)
enabled-Granted [] m s v = v
enabled-Granted (w ∷ rest) m s v = record { taken = v.taken; owner = v.owner }

eq_refl : (m : ℕ) → m == m ≡ true
eq_refl m = ground arith

mutex_ready : (m : ℕ) → mutex_queue m ≢ ready_queue
mutex_ready m e = cc

hand_over-Moved :
    (m : ℕ) (l : List ℕ) (s : Library)
    → s.queues (mutex_queue m) ≡ l
    → Moved (mutex_queue m) (take 1 l) (drop 1 l) s (hand_over l m s)
      × Granted l m (hand_over l m s)
hand_over-Moved m [] s e = (
  record { ready = sym (append-nil (s.queues ready_queue)); waiting = e; others = λ r a b. refl },
  rw (eq_refl m) refl,
)
hand_over-Moved m (w ∷ rest) s e =
    let first = wake_first-Moved (mutex_queue m) (mutex_ready m) w rest s in
    (
      record { ready = first.ready; waiting = first.waiting; others = first.others },
      record { taken = rw (eq_refl m) refl; owner = rw (eq_refl m) refl },
    )

disabled_owner :
    (m t : ℕ) (s : Library)
    → check_ownership m t s ≡ true
    → check_ownership m t (interrupt_disable s) ≡ true
unfolding check_ownership
disabled_owner m t s own = ap (λ b. s.status m && b) (kept (s.occupy_thread m)) ∙ own
  where
    kept : (o : Option ℕ) → is_owner o t (interrupt_disable s) ≡ is_owner o t s
    kept none = refl
    kept (some o) = refl

-- An `unlock` by the owner of the mutex returns. It makes the first thread that waits for the mutex
-- ready, behind those that are, and gives it the mutex, or makes the mutex free if no thread waits;
-- no other queue changes.
pub unlock-Moved :
    (m t : ℕ) (s : Library)
    → check_ownership m t s ≡ true
    → ((unlock m t s).0 ≡ returns)
      × Moved
          (mutex_queue m)
          (take 1 (s.queues (mutex_queue m)))
          (drop 1 (s.queues (mutex_queue m)))
          s
          (unlock m t s).1
      × Granted (s.queues (mutex_queue m)) m (unlock m t s).1
unfolding unlock
unlock-Moved m t s own =
    let handed = hand_over-Moved m (s.queues (mutex_queue m)) (interrupt_disable s) refl in
    rw (disabled_owner m t s own)
      (refl, around handed.0, enabled-Granted (s.queues (mutex_queue m)) m _ handed.1)
