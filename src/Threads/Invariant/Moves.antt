-- ===== src/Threads/Invariant/Moves.antt =====
-- Threads that are woken: from the queue of a mutex, a condition variable or a thread to the ready
-- queue, with the running thread staying where it is.
use eecs.Base.{
  ℕ, ◌≡◌, ◌≢◌, refl, ap, ◌∙◌, ◌↔◌, inl, inr, Bool, false, List, [], ◌∷◌, ◌==◌, arith, Bool-cases,
}
use eecs.Threads.State.{
  Queue, ready_queue, mutex_queue, cv_queue, join_queue, same_queue, Library, put, put_queue, push,
  take_lock,
}
use eecs.Threads.Calls.{hand_over, wake_first, wake_all}
use eecs.Threads.Places.{Place, in_queue, on_cpu, gone, unborn, is_in, nil-place, same_queue_refl}
use eecs.Threads.Invariant.{Stage, Allowed, Core, put-here, Core-push, Core-pop}
use eecs.Threads.Invariant.Switches.{front-alive, take_lock-Core}

-- A state that some waking has led to.
pub record Moved (stage : ℕ → Stage) (at : ℕ → Place) (s s' : Library) : Type 0 where
  pub at' : ℕ → Place
  pub core : Core stage at' s'
  pub same_cpu : (x : ℕ) → (at' x ≡ on_cpu) ↔ (at x ≡ on_cpu)
  pub same_running : s'.running_thread ≡ s.running_thread
  pub same_previous : s'.previous_thread ≡ s.previous_thread

not_there : (p : Place) (q : Queue) → p ≡ in_queue q → p ≢ on_cpu
not_there p q a b = cc

module _ {stage : ℕ → Stage} {at : ℕ → Place} where
  pub Moved-refl : {s : Library} → Core stage at s → Moved stage at s s
  Moved-refl v = record {
    at' = at;
    core = v;
    same_cpu = λ x. (λ k. k, λ k. k);
    same_running = refl;
    same_previous = refl;
  }

  Moved-trans :
      {s s' s'' : Library} (m : Moved stage at s s')
      → Moved stage m.at' s' s''
      → Moved stage at s s''
  Moved-trans m n = record {
    at' = n.at';
    core = n.core;
    same_cpu = λ x.
        (λ e. (m.same_cpu x).0 ((n.same_cpu x).0 e), λ e. (n.same_cpu x).1 ((m.same_cpu x).1 e));
    same_running = n.same_running ∙ m.same_running;
    same_previous = n.same_previous ∙ m.same_previous;
  }

  -- The first thread of the queue becomes ready.
  wake-Moved :
      (s : Library) (q : Queue) (w : ℕ) (rest : List ℕ)
      → s.queues q ≡ w ∷ rest
      → Core stage at s
      → Moved stage at s (push ready_queue w (record s { queues = put_queue s.queues q rest }))
  wake-Moved s q w rest e v =
      let (place, live) = front-alive s q w rest e v in
      record {
        at' = put (put at w on_cpu) w (in_queue ready_queue);
        core =
            Core-push (Core-pop v w q rest e live) w ready_queue
              (λ r. ap (λ p. is_in p r) (put-here at w on_cpu)) live tt;
        same_cpu = λ x. cpu place x;
        same_running = refl;
        same_previous = refl;
      }
    where
      cpu :
          at w ≡ in_queue q
          → (x : ℕ) → (put (put at w on_cpu) w (in_queue ready_queue) x ≡ on_cpu) ↔ (at x ≡ on_cpu)
      cpu place x = elim (Bool-cases (x == w)) [
        | inl here ↦
            rw here
              (λ k. cc, λ k. absurd (not_there (at x) q (ap at (ground (arith, here)) ∙ place) k))
        | inr other ↦ rw other (λ k. k, λ k. k)
      ]

  pub wake_first-Moved :
      (s : Library) (q : Queue) (l : List ℕ)
      → s.queues q ≡ l
      → Core stage at s
      → Moved stage at s (wake_first q l s)
  wake_first-Moved s q [] e v = Moved-refl v
  wake_first-Moved s q (w ∷ rest) e v = wake-Moved s q w rest e v

-- All of them do, and the queue is empty.
pub wake_all-Moved :
    {stage : ℕ → Stage} (s : Library) (q : Queue) (l : List ℕ) {at : ℕ → Place}
    → same_queue q ready_queue ≡ false
    → s.queues q ≡ l
    → Core stage at s
    → Moved stage at s (wake_all q l s) × ((wake_all q l s).queues q ≡ [])
unfolding wake_all
wake_all-Moved s q [] ne e v = (wake_first-Moved s q [] e v, e)
wake_all-Moved s q (w ∷ rest) ne e v =
    let m = wake_first-Moved s q (w ∷ rest) e v in
    let (n, empty) =
      wake_all-Moved (wake_first q (w ∷ rest) s) q rest {at = m.at'} ne
        (rw (ne, same_queue_refl q) refl) m.core in
    (Moved-trans m n, empty)

Allowed-free :
    (stage : ℕ → Stage) (status : ℕ → Bool) (m : ℕ) (p : Place)
    → p ≢ in_queue (mutex_queue m)
    → Allowed stage status p
    → Allowed stage (put status m false) p
Allowed-free stage status m (in_queue ready_queue) h a = tt
Allowed-free stage status m (in_queue (mutex_queue n)) h a = elim (Bool-cases (n == m)) [
  | inl here ↦ absurd (h (ap (λ k. in_queue (mutex_queue k)) (ground (arith, here))))
  | inr other ↦ rw other a
]
Allowed-free stage status m (in_queue (cv_queue c)) h a = tt
Allowed-free stage status m (in_queue (join_queue t)) h a = a
Allowed-free stage status m on_cpu h a = tt
Allowed-free stage status m gone h a = tt
Allowed-free stage status m unborn h a = tt

module _ {stage : ℕ → Stage} {at : ℕ → Place} where
  pub hand_over-Moved :
      (s : Library) (m : ℕ) (l : List ℕ)
      → s.queues (mutex_queue m) ≡ l
      → Core stage at s
      → Moved stage at s (hand_over l m s)
  hand_over-Moved s m [] e v = record {
    at' = at;
    core = record {
      counts = v.counts;
      linked = v.linked;
      allowed = λ x.
          Allowed-free stage s.status m (at x) (nil-place at s.queues (mutex_queue m) e v.counts x)
            (v.allowed x);
      ages = v.ages;
    };
    same_cpu = λ x. (λ k. k, λ k. k);
    same_running = refl;
    same_previous = refl;
  }
  hand_over-Moved s m (w ∷ rest) e v =
      let n = wake-Moved (take_lock m w s) (mutex_queue m) w rest e (take_lock-Core m w s v) in
      record {
        at' = n.at';
        core = n.core;
        same_cpu = n.same_cpu;
        same_running = n.same_running;
        same_previous = n.same_previous;
      }
