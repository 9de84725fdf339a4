-- ===== src/Threads/Invariant/Switches.antt =====
-- The invariant through a switch.
use eecs.Base.{
  ℕ, ◌≡◌, refl, sym, ap, ◌∙◌, ◌⊎◌, inl, inr, Bool, true, List, [], ◌∷◌, Option, none, some, ◌==◌,
  arith, Bool-cases,
}
use eecs.Threads.State.{
  Queue, ready_queue, mutex_queue, cv_queue, join_queue, Point, starting, enabling, reacquiring,
  Library, put, push, interrupt_enable, take_lock, destroy, reset_previous, suspend, start_next,
  save_point, resume, switch,
}
use eecs.Threads.Places.{Place, in_queue, on_cpu, gone, unborn, is_in, front-place}
use eecs.Threads.Invariant.{
  Stage, alive, stage_of, Allowed, Ages, Core, NoCpu, Settled, put-here, leave-NoCpu, enter-alone,
  Core-push, Core-pop,
}

module _ {stage : ℕ → Stage} {next : ℕ} {expired : ℕ → Bool} where
  Ages-reset :
      (p : ℕ) → Ages stage next expired (some p) → Ages stage next (put expired p true) none
  Ages-reset p v = record {
    fresh = v.fresh;
    born = v.born;
    destroyed = λ x o. inl (gone' x (v.destroyed x o));
    expired_over = λ x e. elim (Bool-cases (x == p)) [
      | inl here ↦ v.previous_over x (ap some (ground (arith, here)))
      | inr other ↦ v.expired_over x (ground (arith, e, other))
    ];
    previous_over = λ x e. cc;
  }
    where
      gone' : (x : ℕ) → (expired x ≡ true) ⊎ (some p ≡ some x) → put expired p true x ≡ true
      gone' x d = ground (arith, d)

  Ages-destroy :
      (o : Option ℕ) → Ages stage next expired o → Ages stage next (destroy o expired) none
  Ages-destroy none v = v
  Ages-destroy (some p) v = Ages-reset p v

Allowed-take_lock :
    (stage : ℕ → Stage) (status : ℕ → Bool) (m : ℕ) (p : Place)
    → Allowed stage status p
    → Allowed stage (put status m true) p
Allowed-take_lock stage status m (in_queue ready_queue) h = tt
Allowed-take_lock stage status m (in_queue (mutex_queue n)) h = ground (arith, h)
Allowed-take_lock stage status m (in_queue (cv_queue c)) h = tt
Allowed-take_lock stage status m (in_queue (join_queue t)) h = h
Allowed-take_lock stage status m on_cpu h = tt
Allowed-take_lock stage status m gone h = tt
Allowed-take_lock stage status m unborn h = tt

module _ {stage : ℕ → Stage} {at : ℕ → Place} where
  pub reset_previous-Core : (s : Library) → Core stage at s → Core stage at (reset_previous s)
  reset_previous-Core s v = record {
    counts = v.counts;
    linked = v.linked;
    allowed = v.allowed;
    ages = Ages-destroy s.previous_thread v.ages;
  }

  pub take_lock-Core : (m t : ℕ) (s : Library) → Core stage at s → Core stage at (take_lock m t s)
  take_lock-Core m t s v = record {
    counts = v.counts;
    linked = v.linked;
    allowed = λ x. Allowed-take_lock stage s.status m (at x) (v.allowed x);
    ages = v.ages;
  }

  -- The first of a queue is alive.
  pub front-alive :
      (s : Library) (q : Queue) (t : ℕ) (rest : List ℕ)
      → s.queues q ≡ t ∷ rest
      → Core stage at s
      → (at t ≡ in_queue q) × (stage t ≡ alive)
  front-alive s q t rest front v =
      let e = front-place at s.queues q t rest front v.counts in
      (e, sym (v.linked t) ∙ ap stage_of e)

-- What a switch with that ready queue has to start from and ends in.
abbrev pub Switches : (ℕ → Stage) → List ℕ → (Library → Library) → Type 0
Switches stage ready next =
    (s : Library) (at : ℕ → Place)
    → Core stage at s
    → NoCpu at
    → s.queues ready_queue ≡ ready
    → Settled stage (next s)

-- In user code.
settle :
    (stage : ℕ → Stage) (at : ℕ → Place) (s : Library) (t : ℕ)
    → Core stage (put at t on_cpu) s
    → NoCpu at
    → s.running_thread ≡ some t
    → s.previous_thread ≡ none
    → Settled stage (interrupt_enable s)
settle stage at s t v nobody running previous = record {
  at = put at t on_cpu;
  core = record { counts = v.counts; linked = v.linked; allowed = v.allowed; ages = v.ages };
  cpu = inl (
    t,
    record {
      here = put-here at t on_cpu;
      alone = enter-alone at t nobody;
      running = running;
      no_previous = previous;
      interrupts = refl;
    },
  );
}

suspend-Settled : (stage : ℕ → Stage) → Switches stage [] suspend
suspend-Settled stage s at v nobody empty =
    let w = reset_previous-Core s v in
    record {
      at = at;
      core = record { counts = w.counts; linked = w.linked; allowed = w.allowed; ages = w.ages };
      cpu = inr (record {
        nobody = nobody;
        none_ready = empty;
        running = refl;
        no_previous = refl;
        interrupts = refl;
      });
    }

module _ (stage : ℕ → Stage) (t : ℕ) (rest : List ℕ) (next : Library → Library)
    (v : Switches stage rest next) where
  -- The thread `t` has just been taken from the ready queue.
  resume-Settled :
      (p : Point) (s : Library) (at : ℕ → Place)
      → Core stage (put at t on_cpu) s
      → NoCpu at
      → stage t ≡ alive
      → s.running_thread ≡ some t
      → s.queues ready_queue ≡ rest
      → Settled stage (resume p t next s)
  unfolding resume
  resume-Settled starting s at w nobody live running ready =
      settle stage at (reset_previous s) t (reset_previous-Core s w) nobody running refl
  resume-Settled enabling s at w nobody live running ready =
      settle stage at (reset_previous s) t (reset_previous-Core s w) nobody running refl
  resume-Settled (reacquiring m) s at w nobody live running ready = elim (Bool-cases (s.status m)) [
    | inr free ↦
        rw (free, resume)
          (settle stage at (take_lock m t (reset_previous s)) t
            (take_lock-Core m t (reset_previous s) (reset_previous-Core s w)) nobody running refl)
    | inl held ↦
        rw (held, resume)
          (v (save_point t enabling (push (mutex_queue m) t (reset_previous s)))
            (put (put at t on_cpu) t (in_queue (mutex_queue m))) (waiting held)
            (leave-NoCpu (put at t on_cpu) t (in_queue (mutex_queue m)) (enter-alone at t nobody)
              (λ e. cc))
            ready)
  ]
    where
      waiting :
          s.status m ≡ true
          → Core stage
              (put (put at t on_cpu) t (in_queue (mutex_queue m)))
              (save_point t enabling (push (mutex_queue m) t (reset_previous s)))
      waiting held =
          let c =
            Core-push (reset_previous-Core s w) t (mutex_queue m)
              (λ q. ap (λ p. is_in p q) (put-here at t on_cpu)) live held in
          record { counts = c.counts; linked = c.linked; allowed = c.allowed; ages = c.ages }

pub switch-Settled : (stage : ℕ → Stage) (ready : List ℕ) → Switches stage ready (switch ready)
unfolding switch
switch-Settled stage [] s at v nobody e = suspend-Settled stage s at v nobody e
switch-Settled stage (t ∷ rest) s at v nobody e =
    let (place, live) = front-alive s ready_queue t rest e v in
    let c = Core-pop v t ready_queue rest e live in
    resume-Settled stage t rest (switch rest) (switch-Settled stage rest) (s.point t)
      (start_next t rest s) at
      (record { counts = c.counts; linked = c.linked; allowed = c.allowed; ages = c.ages }) nobody
      live refl refl
