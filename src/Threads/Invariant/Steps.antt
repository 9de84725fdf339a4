-- ===== src/Threads/Invariant/Steps.antt =====
-- The invariant through each call.
use eecs.Base.{
  ℕ, ◌<◌, ◌≡◌, ◌≢◌, refl, sym, ap, ◌∙◌, inl, inr, Bool, true, false, List, [], ◌∷◌, Option, none,
  some, arith, Bool-cases,
}
use eecs.Threads.State.{
  Queue, ready_queue, mutex_queue, cv_queue, join_queue, Point, enabling, reacquiring, Library, put,
  push, take_lock, interrupt_disable, interrupt_enable, save_point, swap_helper,
}
use eecs.Threads.Calls.{
  lock, unlock, wait, signal, broadcast, yield, join, create_thread, finish, leave_cpu,
  check_ownership, is_empty,
}
use eecs.Threads.Places.{Place, in_queue, on_cpu, gone, is_in}
use eecs.Threads.Invariant.{
  Stage, future, alive, over, stage_of, Allowed, Core, NoCpu, OnCpu, Settled, leave-NoCpu,
  Core-push,
}
use eecs.Threads.Invariant.Switches.{switch-Settled, take_lock-Core, reset_previous-Core}
use eecs.Threads.Invariant.Moves.{
  Moved, Moved-refl, wake_first-Moved, wake_all-Moved, hand_over-Moved,
}
use eecs.Threads.Invariant.Ends.{put-cases, alive-future, new_tcb-Core, over-Core}

swap-Settled :
    (stage : ℕ → Stage) (at : ℕ → Place) (t : ℕ) (p : Point) (s : Library)
    → Core stage at s
    → NoCpu at
    → Settled stage (swap_helper t p s)
unfolding swap_helper
swap-Settled stage at t p s v nobody =
    switch-Settled stage (s.queues ready_queue) (save_point t p s) at
      (record { counts = v.counts; linked = v.linked; allowed = v.allowed; ages = v.ages }) nobody
      refl

module _ {stage : ℕ → Stage} {at : ℕ → Place} {s : Library} {t : ℕ} (v : Core stage at s)
    (c : OnCpu at s t) where
  disabled : Core stage at (interrupt_disable s)
  disabled = record { counts = v.counts; linked = v.linked; allowed = v.allowed; ages = v.ages }

  live : stage t ≡ alive
  live = sym (v.linked t) ∙ ap stage_of c.here

  -- The running thread stays on the CPU.
  stay :
      {s' : Library} → Moved stage at (interrupt_disable s) s' → Settled stage (interrupt_enable s')
  stay m = record {
    at = m.at';
    core = record {
      counts = m.core.counts;
      linked = m.core.linked;
      allowed = m.core.allowed;
      ages = m.core.ages;
    };
    cpu = inl (
      t,
      record {
        here = (m.same_cpu t).1 c.here;
        alone = λ x e. c.alone x ((m.same_cpu x).0 e);
        running = m.same_running ∙ c.running;
        no_previous = m.same_previous ∙ c.no_previous;
        interrupts = refl;
      },
    );
  }

  stay_same : Settled stage (interrupt_enable (interrupt_disable s))
  stay_same = stay (Moved-refl disabled)

  -- It has joined a queue, and leaves the CPU.
  queued :
      (q : Queue)
      → Allowed stage s.status (in_queue q)
      → Core stage (put at t (in_queue q)) (push q t (interrupt_disable s))
  queued q ok = Core-push disabled t q (λ r. ap (λ p. is_in p r) c.here) live ok

  nobody : (q : Queue) → NoCpu (put at t (in_queue q))
  nobody q = leave-NoCpu at t (in_queue q) c.alone (λ e. cc)

  block :
      (q : Queue) (p : Point)
      → Allowed stage s.status (in_queue q)
      → Settled stage (swap_helper t p (push q t (interrupt_disable s)))
  block q p ok = swap-Settled stage (put at t (in_queue q)) t p _ (queued q ok) (nobody q)

  pub lock-Settled : (m : ℕ) → Settled stage (lock m t s)
  unfolding lock
  lock-Settled m = elim (Bool-cases (s.status m)) [
    | inl held ↦ rw held (block (mutex_queue m) enabling held)
    | inr free ↦ rw free (stay (taken m))
  ]
    where
      taken : (m : ℕ) → Moved stage at (interrupt_disable s) (take_lock m t (interrupt_disable s))
      taken m = record {
        at' = at;
        core = take_lock-Core m t (interrupt_disable s) disabled;
        same_cpu = λ x. (λ k. k, λ k. k);
        same_running = refl;
        same_previous = refl;
      }

  pub unlock-Settled : (m : ℕ) → Settled stage (unlock m t s).1
  unfolding unlock
  unlock-Settled m = elim (Bool-cases (check_ownership m t (interrupt_disable s))) [
    | inl own ↦
        rw own
          (stay (hand_over-Moved (interrupt_disable s) m (s.queues (mutex_queue m)) refl disabled))
    | inr other ↦ rw other stay_same
  ]

  pub wait-Settled : (k m : ℕ) → Settled stage (wait k m t s).1
  unfolding wait
  wait-Settled k m = elim (Bool-cases (check_ownership m t (interrupt_disable s))) [
    | inl own ↦
        rw own
          (released (hand_over-Moved _ m (s.queues (mutex_queue m)) refl (queued (cv_queue k) tt)))
    | inr other ↦ rw other stay_same
  ]
    where
      released :
          {s' : Library}
          → Moved stage
              (put at t (in_queue (cv_queue k)))
              (push (cv_queue k) t (interrupt_disable s))
              s'
          → Settled stage (swap_helper t (reacquiring m) s')
      released n =
          swap-Settled stage n.at' t (reacquiring m) _ n.core
            (λ x e. nobody (cv_queue k) x ((n.same_cpu x).0 e))

  pub signal-Settled : (k : ℕ) → Settled stage (signal k s)
  unfolding signal
  signal-Settled k =
      stay
        (wake_first-Moved (interrupt_disable s) (cv_queue k) (s.queues (cv_queue k)) refl disabled)

  pub broadcast-Settled : (k : ℕ) → Settled stage (broadcast k s)
  unfolding broadcast
  broadcast-Settled k =
      stay
        (wake_all-Moved (interrupt_disable s) (cv_queue k) (s.queues (cv_queue k)) refl refl
          disabled).0

  pub yield-Settled : Settled stage (yield t s)
  unfolding yield
  yield-Settled = elim (Bool-cases (is_empty (s.queues ready_queue))) [
    | inl empty ↦ rw empty stay_same
    | inr others ↦ rw others (block ready_queue enabling tt)
  ]

  pub join-Settled : (target : ℕ) → target < s.next_tcb → Settled stage (join target t s)
  unfolding join
  join-Settled target h = elim (Bool-cases (s.expired target)) [
    | inl e ↦ rw e stay_same
    | inr e ↦ rw e (block (join_queue target) enabling (unfinished e (stage target) refl))
  ]
    where
      not_none : (x : ℕ) → ¬ (Path (Option ℕ) none (some x))
      not_none x k = cc

      unfinished : s.expired target ≡ false → (g : Stage) → stage target ≡ g → g ≡ alive
      unfinished e alive q = refl
      unfinished e future q = absurd (v.ages.born target h q)
      unfinished e over q = elim (v.ages.destroyed target q) [
        | inl d ↦ absurd (ground (arith, d, e))
        | inr p ↦ absurd (not_none target (sym c.no_previous ∙ p))
      ]

  pub create_thread-Settled :
      (allocated : Bool) → (stage' : ℕ → Stage) × Settled stage' (create_thread allocated s).1
  unfolding create_thread
  create_thread-Settled false = (stage, stay_same)
  create_thread-Settled true =
      let n = new_tcb-Core disabled in
      (
        put stage s.next_tcb alive,
        record {
          at = put at s.next_tcb (in_queue ready_queue);
          core = record {
            counts = n.counts;
            linked = n.linked;
            allowed = n.allowed;
            ages = n.ages;
          };
          cpu = inl (
            t,
            record {
              here = elim (put-cases at s.next_tcb (in_queue ready_queue) t) [
                | inl (e, _) ↦
                    absurd
                      (alive-future _ live (ap stage e ∙ v.ages.fresh s.next_tcb (omega arith)))
                | inr (_, e) ↦ e ∙ c.here
              ];
              alone = λ x q. elim (put-cases at s.next_tcb (in_queue ready_queue) x) [
                | inl (_, e) ↦ absurd (not_there _ e q)
                | inr (_, e) ↦ c.alone x (sym e ∙ q)
              ];
              running = c.running;
              no_previous = c.no_previous;
              interrupts = refl;
            },
          );
        },
      )
    where
      not_there : (p : Place) → p ≡ in_queue ready_queue → p ≢ on_cpu
      not_there p a b = cc

-- The end of a thread whose joiners have been woken.
module _ {stage : ℕ → Stage} {at : ℕ → Place} {s : Library} {t : ℕ} (v : Core stage at s)
    (here : at t ≡ on_cpu) (alone : (x : ℕ) → at x ≡ on_cpu → x ≡ t)
    (previous : s.previous_thread ≡ none) (empty : s.queues (join_queue t) ≡ []) where
  leave_cpu-Settled :
      (l : List ℕ) → s.queues ready_queue ≡ l → Settled (put stage t over) (leave_cpu t l s)
  leave_cpu-Settled [] e =
      let w =
        over-Core (reset_previous-Core s v) t (sym (v.linked t) ∙ ap stage_of here)
          (λ r. ap (λ p. is_in p r) here) refl empty in
      let w' = reset_previous-Core _ w in
      record {
        at = put at t gone;
        core = record {
          counts = w'.counts;
          linked = w'.linked;
          allowed = w'.allowed;
          ages = w'.ages;
        };
        cpu = inr (record {
          nobody = leave-NoCpu at t gone alone (λ k. cc);
          none_ready = e;
          running = refl;
          no_previous = refl;
          interrupts = refl;
        });
      }
  leave_cpu-Settled (w ∷ rest) e =
      switch-Settled (put stage t over) (w ∷ rest) _ (put at t gone)
        (over-Core v t (sym (v.linked t) ∙ ap stage_of here) (λ r. ap (λ p. is_in p r) here)
          previous empty)
        (leave-NoCpu at t gone alone (λ k. cc)) e

pub finish-Settled :
    {stage : ℕ → Stage} {at : ℕ → Place} {s : Library} {t : ℕ}
    → Core stage at s
    → OnCpu at s t
    → Settled (put stage t over) (finish t s)
unfolding finish
finish-Settled {s} {t} v c =
    let (m, empty) =
      wake_all-Moved (interrupt_disable s) (join_queue t) (s.queues (join_queue t)) refl refl
        (disabled v c) in
    leave_cpu-Settled m.core ((m.same_cpu t).1 c.here) (λ x e. c.alone x ((m.same_cpu x).0 e))
      (m.same_previous ∙ c.no_previous) empty _ refl
