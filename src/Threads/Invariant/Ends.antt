-- ===== src/Threads/Invariant/Ends.antt =====
-- The creation and the end of a thread.
use eecs.Base.{
  ℕ, suc, ◌≡◌, ◌≢◌, refl, sym, ap, subst, ◌∙◌, ◌⊎◌, inl, inr, Bool, [], Option, none, some, ◌==◌,
  arith, Bool-cases,
}
use eecs.Threads.State.{ready_queue, mutex_queue, cv_queue, join_queue, Library, put}
use eecs.Threads.Calls.{new_tcb}
use eecs.Threads.Places.{
  Place, in_queue, on_cpu, gone, unborn, is_in, Outside, nil-place, push-Counts,
}
use eecs.Threads.Invariant.{
  Stage, future, alive, over, stage_of, Allowed, Ages, Core, put-All, put-here,
}

Allowed-born :
    (stage : ℕ → Stage) (status : ℕ → Bool) (n : ℕ) (p : Place)
    → Allowed stage status p
    → Allowed (put stage n alive) status p
Allowed-born stage status n (in_queue ready_queue) h = tt
Allowed-born stage status n (in_queue (mutex_queue m)) h = h
Allowed-born stage status n (in_queue (cv_queue c)) h = tt
Allowed-born stage status n (in_queue (join_queue t)) h = elim (Bool-cases (t == n)) [
  | inl here ↦ rw here refl
  | inr other ↦ rw other h
]
Allowed-born stage status n on_cpu h = tt
Allowed-born stage status n gone h = tt
Allowed-born stage status n unborn h = tt

Allowed-over :
    (stage : ℕ → Stage) (status : ℕ → Bool) (n : ℕ) (p : Place)
    → p ≢ in_queue (join_queue n)
    → Allowed stage status p
    → Allowed (put stage n over) status p
Allowed-over stage status n (in_queue ready_queue) ne h = tt
Allowed-over stage status n (in_queue (mutex_queue m)) ne h = h
Allowed-over stage status n (in_queue (cv_queue c)) ne h = tt
Allowed-over stage status n (in_queue (join_queue t)) ne h = elim (Bool-cases (t == n)) [
  | inl here ↦ absurd (ne (ap (λ k. in_queue (join_queue k)) (ground (arith, here))))
  | inr other ↦ rw other h
]
Allowed-over stage status n on_cpu ne h = tt
Allowed-over stage status n gone ne h = tt
Allowed-over stage status n unborn ne h = tt

-- Only a place that has not been reached is of a thread to come.
unborn_of_future : (p : Place) → stage_of p ≡ future → p ≡ unborn
unborn_of_future (in_queue q) h = cc
unborn_of_future on_cpu h = cc
unborn_of_future gone h = cc
unborn_of_future unborn h = refl

pub put-cases :
    {A : Type 0} (f : ℕ → A) (k : ℕ) (a : A) (x : ℕ)
    → ((x ≡ k) × (put f k a x ≡ a)) ⊎ ((x ≢ k) × (put f k a x ≡ f x))
put-cases f k a x = elim (Bool-cases (x == k)) [
  | inl here ↦ inl (ground (arith, here), rw here refl)
  | inr other ↦ inr (ground (arith, other), rw other refl)
]

over-future : (p : Stage) → p ≡ over → p ≢ future
over-future p a b = cc

pub alive-future : (p : Stage) → p ≡ alive → p ≢ future
alive-future p a b = cc

over-alive : (p : Stage) → p ≡ over → p ≢ alive
over-alive p a b = cc

module _ {stage : ℕ → Stage} {next : ℕ} {expired : ℕ → Bool} where
  Ages-born :
      {previous : Option ℕ}
      → Ages stage next expired previous
      → Ages (put stage next alive) (suc next) expired previous
  Ages-born v = record {
    fresh = λ x h. elim (put-cases stage next alive x) [
      | inl (e, _) ↦ absurd (omega (arith, h, e))
      | inr (_, e) ↦ e ∙ v.fresh x (omega (arith, h))
    ];
    born = λ x h q. elim (put-cases stage next alive x) [
      | inl (_, e) ↦ absurd (alive-future _ e q)
      | inr (ne, e) ↦ v.born x (ground (arith, ne, h)) (sym e ∙ q)
    ];
    destroyed = λ x q. elim (put-cases stage next alive x) [
      | inl (_, e) ↦ absurd (over-alive _ q e)
      | inr (_, e) ↦ v.destroyed x (sym e ∙ q)
    ];
    expired_over = λ x q. keep x (v.expired_over x q);
    previous_over = λ x q. keep x (v.previous_over x q);
  }
    where
      keep : (x : ℕ) → stage x ≡ over → put stage next alive x ≡ over
      keep x o = elim (put-cases stage next alive x) [
        | inl (e, _) ↦ absurd (over-future _ o (v.fresh x (omega (arith, e))))
        | inr (_, e) ↦ e ∙ o
      ]

  Ages-over :
      (t : ℕ)
      → stage t ≡ alive
      → Ages stage next expired none
      → Ages (put stage t over) next expired (some t)
  Ages-over t live v = record {
    fresh = λ x h. elim (put-cases stage t over x) [
      | inl (e, _) ↦ absurd (alive-future _ live (subst (λ k. stage k ≡ future) e (v.fresh x h)))
      | inr (_, e) ↦ e ∙ v.fresh x h
    ];
    born = λ x h q. elim (put-cases stage t over x) [
      | inl (_, e) ↦ absurd (over-future _ e q)
      | inr (_, e) ↦ v.born x h (sym e ∙ q)
    ];
    destroyed = λ x q. elim (put-cases stage t over x) [
      | inl (e, _) ↦ inr (ap some (sym e))
      | inr (_, e) ↦ elim (v.destroyed x (sym e ∙ q)) [ inl d ↦ inl d | inr k ↦ absurd (empty x k) ]
    ];
    expired_over = λ x q. elim (put-cases stage t over x) [
      | inl (_, e) ↦ e
      | inr (_, e) ↦ e ∙ v.expired_over x q
    ];
    previous_over = λ x q. elim (put-cases stage t over x) [
      | inl (_, e) ↦ e
      | inr (ne, e) ↦ absurd (ne (same x q))
    ];
  }
    where
      empty : (x : ℕ) → ¬ (Path (Option ℕ) none (some x))
      empty x k = cc

      same : (x : ℕ) → Path (Option ℕ) (some t) (some x) → x ≡ t
      same x q = cc

module _ {stage : ℕ → Stage} {at : ℕ → Place} {s : Library} (v : Core stage at s) where
  -- The next TCB becomes ready.
  pub new_tcb-Core :
      Core (put stage s.next_tcb alive) (put at s.next_tcb (in_queue ready_queue)) (new_tcb s)
  new_tcb-Core =
      let e =
        unborn_of_future (at s.next_tcb)
          (v.linked s.next_tcb ∙ v.ages.fresh s.next_tcb (omega arith)) in
      record {
        counts =
            push-Counts at s.queues ready_queue s.next_tcb (λ q. ap (λ p. is_in p q) e) v.counts;
        linked = λ x. elim (put-cases at s.next_tcb (in_queue ready_queue) x) [
          | inl (k, d) ↦
              ap stage_of d
              ∙ sym (ap (put stage s.next_tcb alive) k ∙ put-here stage s.next_tcb alive)
          | inr (ne, d) ↦ ap stage_of d ∙ v.linked x ∙ sym (skip stage alive x ne)
        ];
        allowed =
            put-All (λ x p. Allowed (put stage s.next_tcb alive) s.status p) at s.next_tcb
              (in_queue ready_queue) tt
              (λ x. Allowed-born stage s.status s.next_tcb (at x) (v.allowed x));
        ages = Ages-born v.ages;
      }
    where
      skip : {A : Type 0} (f : ℕ → A) (a : A) (x : ℕ) → x ≢ s.next_tcb → put f s.next_tcb a x ≡ f x
      skip f a x ne = elim (put-cases f s.next_tcb a x) [
        | inl (e, _) ↦ absurd (ne e)
        | inr (_, e) ↦ e
      ]

  -- A thread ends that nobody waits for.
  pub over-Core :
      (t : ℕ)
      → stage t ≡ alive
      → Outside (at t)
      → s.previous_thread ≡ none
      → s.queues (join_queue t) ≡ []
      → Core
          (put stage t over)
          (put at t gone)
          (record s { previous_thread = some t; running_thread = none })
  over-Core t live out none' empty = record {
    counts = λ q x. elim (put-cases at t gone x) [
      | inl (e, d) ↦ v.counts q x ∙ ap (λ k. is_in (at k) q) e ∙ out q ∙ sym (ap (λ p. is_in p q) d)
      | inr (_, d) ↦ v.counts q x ∙ sym (ap (λ p. is_in p q) d)
    ];
    linked = λ x. elim (put-cases at t gone x) [
      | inl (k, d) ↦ ap stage_of d ∙ sym (ap (put stage t over) k ∙ put-here stage t over)
      | inr (ne, d) ↦ ap stage_of d ∙ v.linked x ∙ sym (skip stage over x ne)
    ];
    allowed =
        put-All (λ x p. Allowed (put stage t over) s.status p) at t gone tt
          (λ x.
            Allowed-over stage s.status t (at x)
              (nil-place at s.queues (join_queue t) empty v.counts x) (v.allowed x));
    ages = Ages-over t live (subst (Ages stage s.next_tcb s.expired) none' v.ages);
  }
    where
      skip : {A : Type 0} (f : ℕ → A) (a : A) (x : ℕ) → x ≢ t → put f t a x ≡ f x
      skip f a x ne = elim (put-cases f t a x) [ inl (e, _) ↦ absurd (ne e) | inr (_, e) ↦ e ]
