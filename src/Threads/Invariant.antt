-- ===== src/Threads/Invariant.antt =====
-- What holds of the library whenever a thread is in user code or the CPU is suspended, and while it
-- switches. A thread has a stage, which only its creation and its end change, and a place.
pub mod Switches
pub mod Moves
pub mod Ends
pub mod Steps
use eecs.Base.{
  ℕ, suc, ◌≤◌, ◌<◌, ◌≡◌, ◌≢◌, refl, sym, ap, subst, ◌∙◌, ◌⊎◌, inl, inr, Bool, true, false, List, [],
  ◌∷◌, ◌++◌, Option, none, some, ◌==◌, arith, if◌then◌else◌, Bool-cases,
}
use eecs.Threads.State.{
  Queue, ready_queue, mutex_queue, cv_queue, join_queue, Library, put, put_queue, push, take_lock,
  reset_previous, suspend, start_next,
}
use eecs.Threads.Places.{
  Place, in_queue, on_cpu, gone, unborn, is_in, Counts, Outside, push-Counts, pop-Counts,
}

pub data Stage : Type 0 where
  future : Stage
  alive : Stage
  over : Stage

abbrev pub stage_of : Place → Stage
stage_of (in_queue q) = alive
stage_of on_cpu = alive
stage_of gone = over
stage_of unborn = future

-- A thread waits only for a mutex that is held, and joins only a thread that has not finished.
abbrev pub Allowed : (ℕ → Stage) → (ℕ → Bool) → Place → Type 0
Allowed stage status (in_queue ready_queue) = Unit {0}
Allowed stage status (in_queue (mutex_queue m)) = status m ≡ true
Allowed stage status (in_queue (cv_queue c)) = Unit {0}
Allowed stage status (in_queue (join_queue t)) = stage t ≡ alive
Allowed stage status on_cpu = Unit {0}
Allowed stage status gone = Unit {0}
Allowed stage status unborn = Unit {0}

-- The TCBs that have been created are those below `next`; those that are destroyed are of finished
-- threads, and a finished thread's is destroyed, unless it is the previous thread's.
pub record Ages (stage : ℕ → Stage) (next : ℕ) (expired : ℕ → Bool) (previous : Option ℕ)
    : Type 0 where
  pub fresh : (x : ℕ) → next ≤ x → stage x ≡ future
  pub born : (x : ℕ) → x < next → stage x ≢ future
  pub destroyed : (x : ℕ) → stage x ≡ over → (expired x ≡ true) ⊎ (previous ≡ some x)
  pub expired_over : (x : ℕ) → expired x ≡ true → stage x ≡ over
  pub previous_over : (x : ℕ) → previous ≡ some x → stage x ≡ over

pub record Core (stage : ℕ → Stage) (at : ℕ → Place) (s : Library) : Type 0 where
  pub counts : Counts at s.queues
  pub linked : (x : ℕ) → stage_of (at x) ≡ stage x
  pub allowed : (x : ℕ) → Allowed stage s.status (at x)
  pub ages : Ages stage s.next_tcb s.expired s.previous_thread

abbrev pub NoCpu : (ℕ → Place) → Type 0
NoCpu at = (x : ℕ) → at x ≢ on_cpu

-- Thread `t` is in user code.
pub record OnCpu (at : ℕ → Place) (s : Library) (t : ℕ) : Type 0 where
  pub here : at t ≡ on_cpu
  pub alone : (x : ℕ) → at x ≡ on_cpu → x ≡ t
  pub running : s.running_thread ≡ some t
  pub no_previous : s.previous_thread ≡ none
  pub interrupts : s.enabled ≡ true

-- The CPU is suspended.
pub record Idle (at : ℕ → Place) (s : Library) : Type 0 where
  pub nobody : NoCpu at
  pub none_ready : s.queues ready_queue ≡ []
  pub running : s.running_thread ≡ none
  pub no_previous : s.previous_thread ≡ none
  pub interrupts : s.enabled ≡ true

pub record Settled (stage : ℕ → Stage) (s : Library) : Type 0 where
  pub at : ℕ → Place
  pub core : Core stage at s
  pub cpu : ((t : ℕ) × OnCpu at s t) ⊎ Idle at s

-- What holds of all places holds of them after one has changed.
pub put-All :
    {A : Type 0} (P : ℕ → A → Type 0) (at : ℕ → A) (t : ℕ) (p : A)
    → P t p
    → ((x : ℕ) → P x (at x))
    → (x : ℕ) → P x (put at t p x)
put-All P at t p h v x = elim (Bool-cases (x == t)) [
  | inl here ↦ rw here (subst (λ y. P y p) (ground (arith, here)) h)
  | inr other ↦ rw other (v x)
]

pub put-here : {A : Type 0} (at : ℕ → A) (t : ℕ) (p : A) → put at t p t ≡ p
put-here at t p = rw (same t) refl
  where
    same : (t : ℕ) → (t == t) ≡ true
    same t = ground arith

-- The only thread on the CPU leaves it.
pub leave-NoCpu :
    (at : ℕ → Place) (t : ℕ) (p : Place)
    → ((x : ℕ) → at x ≡ on_cpu → x ≡ t)
    → p ≢ on_cpu
    → NoCpu (put at t p)
leave-NoCpu at t p alone h x = elim (Bool-cases (x == t)) [
  | inl here ↦ rw here h
  | inr other ↦ rw other (λ e. absurd (ground (arith, alone x e, other)))
]

-- A thread comes onto the CPU.
pub enter-alone : (at : ℕ → Place) (t : ℕ) → NoCpu at → (x : ℕ) → put at t on_cpu x ≡ on_cpu → x ≡ t
enter-alone at t nobody x =
    put-All (λ y p. p ≡ on_cpu → y ≡ t) at t on_cpu (λ _. refl) (λ y e. absurd (nobody y e)) x

module _ {stage : ℕ → Stage} {at : ℕ → Place} {s : Library} (v : Core stage at s) (t : ℕ) where
  -- A live thread that is in no queue joins one.
  pub Core-push :
      (q : Queue)
      → Outside (at t)
      → stage t ≡ alive
      → Allowed stage s.status (in_queue q)
      → Core stage (put at t (in_queue q)) (push q t s)
  Core-push q out live ok = record {
    counts = push-Counts at s.queues q t out v.counts;
    linked = put-All (λ x p. stage_of p ≡ stage x) at t (in_queue q) (sym live) v.linked;
    allowed = put-All (λ x p. Allowed stage s.status p) at t (in_queue q) ok v.allowed;
    ages = v.ages;
  }

  -- The first thread of a queue leaves it for the CPU.
  pub Core-pop :
      (q : Queue) (rest : List ℕ)
      → s.queues q ≡ t ∷ rest
      → stage t ≡ alive
      → Core stage (put at t on_cpu) (record s { queues = put_queue s.queues q rest })
  Core-pop q rest front live = record {
    counts = pop-Counts at s.queues q t rest on_cpu front (λ r. refl) v.counts;
    linked = put-All (λ x p. stage_of p ≡ stage x) at t on_cpu (sym live) v.linked;
    allowed = put-All (λ x p. Allowed stage s.status p) at t on_cpu tt v.allowed;
    ages = v.ages;
  }
