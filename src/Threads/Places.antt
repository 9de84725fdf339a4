-- ===== src/Threads/Places.antt =====
-- Where a thread is, and what the queues say of it.
use eecs.Base.{
  ℕ, ◌+◌, ◌≡◌, ◌≢◌, refl, sym, ap, subst, ◌∙◌, inl, inr, true, false, List, [], ◌∷◌, ◌++◌, ◌==◌,
  arith, if◌then◌else◌, Bool-cases,
}
use eecs.Threads.State.{
  Queue, ready_queue, mutex_queue, cv_queue, join_queue, same_queue, put, put_queue,
}

pub data Place : Type 0 where
  in_queue : Queue → Place
  on_cpu : Place
  gone : Place
  unborn : Place

-- 1 if the place is in that queue.
abbrev pub is_in : Place → Queue → ℕ
is_in (in_queue r) q = if same_queue q r then 1 else 0
is_in on_cpu q = 0
is_in gone q = 0
is_in unborn q = 0

-- How often a thread is in a queue.
unfoldable pub count : ℕ → List ℕ → ℕ
count x [] = 0
count x (y ∷ ys) = (if y == x then 1 else 0) + count x ys

count-append : (x : ℕ) (xs ys : List ℕ) → count x (xs ++ ys) ≡ count x xs + count x ys
unfolding count
count-append x [] ys = omega arith
count-append x (y ∷ xs) ys = omega (arith, count-append x xs ys)

-- The queues as lists of the threads whose place they are.
abbrev pub Counts : (ℕ → Place) → (Queue → List ℕ) → Type 0
Counts at queues = (q : Queue) (x : ℕ) → count x (queues q) ≡ is_in (at x) q

pub same_queue_refl : (q : Queue) → same_queue q q ≡ true
same_queue_refl ready_queue = refl
same_queue_refl (mutex_queue m) = ground arith
same_queue_refl (cv_queue m) = ground arith
same_queue_refl (join_queue m) = ground arith

pub eq_of_same_queue : (q r : Queue) → same_queue q r ≡ true → q ≡ r
eq_of_same_queue ready_queue ready_queue h = refl
eq_of_same_queue (mutex_queue m) (mutex_queue n) h = ap mutex_queue (ground arith)
eq_of_same_queue (cv_queue m) (cv_queue n) h = ap cv_queue (ground arith)
eq_of_same_queue (join_queue m) (join_queue n) h = ap join_queue (ground arith)
eq_of_same_queue _ _ h = absurd (ground arith)

pub eq_of_is_in : (p : Place) (q : Queue) → is_in p q ≢ 0 → p ≡ in_queue q
eq_of_is_in (in_queue r) q h = ap in_queue (sym (eq_of_same_queue q r (ground arith)))
eq_of_is_in on_cpu q h = absurd (h refl)
eq_of_is_in gone q h = absurd (h refl)
eq_of_is_in unborn q h = absurd (h refl)

-- No queue is the thread's place.
abbrev pub Outside : Place → Type 0
Outside p = (q : Queue) → is_in p q ≡ 0

-- A thread from outside joins a queue.
pub push-Counts :
    (at : ℕ → Place) (f : Queue → List ℕ) (q : Queue) (t : ℕ)
    → Outside (at t)
    → Counts at f
    → Counts (put at t (in_queue q)) (put_queue f q (f q ++ t ∷ []))
push-Counts at f q t out v r x = elim (Bool-cases (same_queue r q)) [
  | inl same ↦ elim (Bool-cases (x == t)) [
    | inl here ↦
        rw (same, here, same)
          (omega (arith, count-append x (f q) (t ∷ []), v q x, out' here q, one here))
    | inr other ↦
        rw (same, other)
          (omega (arith, count-append x (f q) (t ∷ []), v q x, none' other)
            ∙ ap (is_in (at x)) (sym (eq_of_same_queue r q same)))
  ]
  | inr apart ↦ elim (Bool-cases (x == t)) [
    | inl here ↦ rw (apart, here, apart) (v r x ∙ out' here r)
    | inr other ↦ rw (apart, other) (v r x)
  ]
]
  where
    out' : (x == t) ≡ true → Outside (at x)
    out' here k = subst (λ y. is_in (at y) k ≡ 0) (ground (arith, here)) (out k)

    one : (x == t) ≡ true → count x (t ∷ []) ≡ 1
    one here = unfold count in ground (arith, here)

    none' : (x == t) ≡ false → count x (t ∷ []) ≡ 0
    none' other = unfold count in ground (arith, other)

-- The first thread of a queue leaves it for a place outside.
pub pop-Counts :
    (at : ℕ → Place) (f : Queue → List ℕ) (q : Queue) (t : ℕ) (rest : List ℕ) (p : Place)
    → f q ≡ t ∷ rest
    → Outside p
    → Counts at f
    → Counts (put at t p) (put_queue f q rest)
pop-Counts at f q t rest p front out v r x = elim (Bool-cases (x == t)) [
  | inl here ↦ elim (Bool-cases (same_queue r q)) [
    | inl same ↦ rw (same, here) (omega (arith, tally, one here, place here) ∙ sym (out r))
    | inr apart ↦
        rw (apart, here) (v r x ∙ ap (λ k. is_in k r) (its_place here) ∙ away apart ∙ sym (out r))
  ]
  | inr other ↦ elim (Bool-cases (same_queue r q)) [
    | inl same ↦
        rw (same, other)
          (omega (arith, tally, v q x, none' other)
            ∙ ap (is_in (at x)) (sym (eq_of_same_queue r q same)))
    | inr apart ↦ rw (apart, other) (v r x)
  ]
]
  where
    tally : count x (f q) ≡ count x (t ∷ rest)
    tally = ap (count x) front

    one : (x == t) ≡ true → count x (t ∷ rest) ≡ 1 + count x rest
    one here = unfold count in ground (arith, here)

    none' : (x == t) ≡ false → count x (t ∷ rest) ≡ count x rest
    none' other = unfold count in ground (arith, other)

    its_place : (x == t) ≡ true → at x ≡ in_queue q
    its_place here = eq_of_is_in (at x) q λ z. absurd (omega (arith, tally, one here, v q x, z))

    place : (x == t) ≡ true → count x (f q) ≡ 1
    place here = v q x ∙ ap (λ k. is_in k q) (its_place here) ∙ (rw (same_queue_refl q) refl)

    away : same_queue r q ≡ false → is_in (in_queue q) r ≡ 0
    away apart = rw apart refl

-- The first thread of a queue has its place there.
pub front-place :
    (at : ℕ → Place) (f : Queue → List ℕ) (q : Queue) (t : ℕ) (rest : List ℕ)
    → f q ≡ t ∷ rest
    → Counts at f
    → at t ≡ in_queue q
front-place at f q t rest front v =
    eq_of_is_in (at t) q λ z. absurd (omega (arith, ap (count t) front, one, v q t, z))
  where
    one : count t (t ∷ rest) ≡ 1 + count t rest
    one = unfold count in ground arith

-- An empty queue is no thread's place.
pub nil-place :
    (at : ℕ → Place) (f : Queue → List ℕ) (q : Queue)
    → f q ≡ []
    → Counts at f
    → (x : ℕ) → at x ≢ in_queue q
nil-place at f q empty v x e =
    absurd (omega (arith, ap (count x) empty, none', v q x ∙ ap (λ p. is_in p q) e ∙ there))
  where
    none' : count x [] ≡ 0
    none' = unfold count in refl

    there : is_in (in_queue q) q ≡ 1
    there = rw (same_queue_refl q) refl
