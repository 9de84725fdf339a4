-- ===== src/Threads/Runs.antt =====
-- Every run of the library on one CPU, from `cpu::cpu` on, as a sequence of calls by the thread that
-- runs. The timer's interrupts are calls of `yield`.
use eecs.Base.{
  ℕ, ◌<◌, ◌≡◌, ◌≢◌, refl, sym, subst, ◌∙◌, inl, inr, Bool, true, false, [], ◌∷◌, Option, none, some,
  arith,
}
use eecs.Threads.State.{ready_queue, Library, put}
use eecs.Threads.Calls.{
  lock, unlock, wait, signal, broadcast, yield, join, create_thread, finish, cpu, before_boot,
  new_tcb,
}
use eecs.Threads.Places.{Place, in_queue, on_cpu, unborn, count}
use eecs.Threads.Invariant.{Stage, future, alive, over, Core, OnCpu, Settled}
use eecs.Threads.Invariant.Switches.{switch-Settled}
use eecs.Threads.Invariant.Ends.{new_tcb-Core, put-cases}
use eecs.Threads.Invariant.Steps.{
  lock-Settled, unlock-Settled, wait-Settled, signal-Settled, broadcast-Settled, yield-Settled,
  join-Settled, create_thread-Settled, finish-Settled,
}

pub data Call : Type 0 where
  locks unlocks signals broadcasts joins : ℕ → Call
  waits : ℕ → ℕ → Call
  yields finishes : Call
  creates : Bool → Call

abbrev pub perform : Call → ℕ → Library → Library
perform (locks m) t s = lock m t s
perform (unlocks m) t s = (unlock m t s).1
perform (signals c) t s = signal c s
perform (broadcasts c) t s = broadcast c s
perform (joins target) t s = join target t s
perform (waits c m) t s = (wait c m t s).1
perform yields t s = yield t s
perform finishes t s = finish t s
perform (creates allocated) t s = (create_thread allocated s).1

-- A thread object refers to a TCB that has been created.
abbrev pub Valid : Call → Library → Type 0
Valid (joins target) s = target < s.next_tcb
Valid (locks m) s = Unit {0}
Valid (unlocks m) s = Unit {0}
Valid (signals c) s = Unit {0}
Valid (broadcasts c) s = Unit {0}
Valid (waits c m) s = Unit {0}
Valid yields s = Unit {0}
Valid finishes s = Unit {0}
Valid (creates allocated) s = Unit {0}

pub data Reach : Library → Type 0 where
  boot : Reach (cpu true).1
  call :
      {s : Library} (k : Call) (t : ℕ)
      → Reach s
      → s.running_thread ≡ some t
      → Valid k s
      → Reach (perform k t s)

perform-Settled :
    {stage : ℕ → Stage} {at : ℕ → Place} {s : Library} {t : ℕ} (k : Call)
    → Core stage at s
    → OnCpu at s t
    → Valid k s
    → (stage' : ℕ → Stage) × Settled stage' (perform k t s)
perform-Settled (locks m) v c h = (_, lock-Settled v c m)
perform-Settled (unlocks m) v c h = (_, unlock-Settled v c m)
perform-Settled (signals k) v c h = (_, signal-Settled v c k)
perform-Settled (broadcasts k) v c h = (_, broadcast-Settled v c k)
perform-Settled (joins target) v c h = (_, join-Settled v c target h)
perform-Settled (waits k m) v c h = (_, wait-Settled v c k m)
perform-Settled yields v c h = (_, yield-Settled v c)
perform-Settled finishes v c h = (_, finish-Settled v c)
perform-Settled (creates allocated) v c h = create_thread-Settled v c allocated

-- Before the first thread.
boot-Core : Core (λ x. future) (λ x. unborn) before_boot
boot-Core = record {
  counts = λ q x. unfold count in refl;
  linked = λ x. refl;
  allowed = λ x. tt;
  ages = record {
    fresh = λ x h. refl;
    born = λ x h. absurd (omega (arith, h));
    destroyed = λ x e. absurd (future-over e);
    expired_over = λ x e. absurd (false-true e);
    previous_over = λ x e. absurd (none-some x e);
  };
}
  where
    future-over : ¬ (Path Stage future over)
    future-over e = cc

    false-true : ¬ (Path Bool false true)
    false-true e = cc

    none-some : (x : ℕ) → ¬ (Path (Option ℕ) none (some x))
    none-some x e = cc

boot-Settled : Settled (put (λ x. future) 0 alive) (cpu true).1
unfolding cpu
boot-Settled =
    switch-Settled (put (λ x. future) 0 alive) (0 ∷ []) (new_tcb before_boot)
      (put (λ x. unborn) 0 (in_queue ready_queue)) (new_tcb-Core boot-Core)
      (λ x. elim (put-cases (λ x. unborn) 0 (in_queue ready_queue) x) [
        | inl (_, e) ↦ λ k. ready-cpu _ e k
        | inr (_, e) ↦ λ k. unborn-cpu _ e k
      ])
      refl
  where
    ready-cpu : (p : Place) → p ≡ in_queue ready_queue → p ≢ on_cpu
    ready-cpu p a b = cc

    unborn-cpu : (p : Place) → p ≡ unborn → p ≢ on_cpu
    unborn-cpu p a b = cc

-- In every state that a run reaches between two calls, the invariant holds.
pub Reach-Settled : {s : Library} → Reach s → (stage : ℕ → Stage) × Settled stage s
Reach-Settled boot = (_, boot-Settled)
Reach-Settled (call k t r e h) = step (Reach-Settled r) e h
  where
    same : {a b : ℕ} → Path (Option ℕ) (some a) (some b) → a ≡ b
    same q = cc

    none-some : (x : ℕ) → ¬ (Path (Option ℕ) none (some x))
    none-some x q = cc

    step :
        {s : Library}
        → (stage : ℕ → Stage) × Settled stage s
        → s.running_thread ≡ some t
        → Valid k s
        → (stage' : ℕ → Stage) × Settled stage' (perform k t s)
    step {s} (stage, v) e h = elim (v.cpu) [
      | inl (u, c) ↦
          perform-Settled k v.core (subst (λ y. OnCpu v.at s y) (same (sym c.running ∙ e)) c) h
      | inr idle ↦ absurd (none-some t (sym idle.running ∙ e))
    ]
