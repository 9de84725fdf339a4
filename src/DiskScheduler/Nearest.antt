-- ===== src/DiskScheduler/Nearest.antt =====
-- The choice of the next request by the server (Project1/scheduler.cpp).
use eecs.Base.{
  ℕ, zero, suc, ◌+◌, ◌≤◌, ◌<◌, ◌≡◌, refl, ◌∙◌, sym, ap, subst, ◌⊎◌, inl, inr, ◌≢◌, Option, none,
  some, List, [], ◌∷◌, get_elem?, ltb, arith, Bool-cases,
}
use eecs.DiskScheduler.{Monitor, distance, nearest, target_of}

-- What holds of every entry with its index.
abbrev Each : (ℕ → ℕ × ℕ → Type 0) → List (ℕ × ℕ) → Type 0
Each P ds = (j : ℕ) (e : ℕ × ℕ) → get_elem? ds j ≡ some e → P j e

Each-cons :
    (P : ℕ → ℕ × ℕ → Type 0) (d : ℕ × ℕ) (ds : List (ℕ × ℕ))
    → P 0 d
    → Each (λ j. P (suc j)) ds
    → Each P (d ∷ ds)
Each-cons P d ds h v zero e q = subst (P 0) (same q) h
  where
    same : Path (Option (ℕ × ℕ)) (some d) (some e) → d ≡ e
    same q = cc
Each-cons P d ds h v (suc j) e q = v j e q

-- Entry `j` is the first of the nearest ones.
pub record Nearest (cur : ℕ) (ds : List (ℕ × ℕ)) (j : ℕ) : Type 0 where
  pub entry : ℕ × ℕ
  pub place : get_elem? ds j ≡ some entry
  pub least : Each (λ k e. distance cur entry.1 ≤ distance cur e.1) ds
  pub first : Each (λ k e. k < j → distance cur entry.1 < distance cur e.1) ds

-- What the loop returns from index `i` on.
abbrev Picked : ℕ → List (ℕ × ℕ) → ℕ → ℕ → ℕ → ℕ → Type 0
Picked cur ds i diff target r =
    (Each (λ k e. diff ≤ distance cur e.1) ds × (r ≡ target))
    ⊎ ((j : ℕ) × (v : Nearest cur ds j) × (r ≡ i + j) × (distance cur v.entry.1 < diff))

nearest-Picked :
    (cur : ℕ) (ds : List (ℕ × ℕ)) (i diff target : ℕ)
    → Picked cur ds i diff target (nearest cur ds i diff target)
unfolding nearest
nearest-Picked cur [] i diff target = inl ((λ k e q. absurd (empty e q)), refl)
  where
    empty : (e : ℕ × ℕ) → ¬ (Path (Option (ℕ × ℕ)) none (some e))
    empty e q = cc
nearest-Picked cur (d ∷ ds) i diff target =
    step (nearest-Picked cur ds (suc i) (distance cur d.1) i)
      (nearest-Picked cur ds (suc i) diff target)
  where
    here :
        distance cur d.1 < diff
        → Picked cur ds (suc i) (distance cur d.1) i (nearest cur ds (suc i) (distance cur d.1) i)
        → Picked cur (d ∷ ds) i diff target (nearest cur ds (suc i) (distance cur d.1) i)
    here closer (inl (all, e)) = inr (
      0,
      record {
        entry = d;
        place = refl;
        least = Each-cons (λ k e. distance cur d.1 ≤ distance cur e.1) d ds (omega arith) all;
        first = λ k e q h. absurd (omega (arith, h));
      },
      omega (arith, e),
      closer,
    )
    here closer (inr (j, v, e, h)) = inr (
      suc j,
      record {
        entry = v.entry;
        place = v.place;
        least =
            Each-cons (λ k e. distance cur v.entry.1 ≤ distance cur e.1) d ds (omega (arith, h))
              v.least;
        first =
            Each-cons (λ k e. k < suc j → distance cur v.entry.1 < distance cur e.1) d ds (λ _. h)
              (λ k e q l. v.first k e q (omega (arith, l)));
      },
      omega (arith, e),
      omega (arith, h, closer),
    )

    later :
        diff ≤ distance cur d.1
        → Picked cur ds (suc i) diff target (nearest cur ds (suc i) diff target)
        → Picked cur (d ∷ ds) i diff target (nearest cur ds (suc i) diff target)
    later far (inl (all, e)) = inl (Each-cons (λ k e. diff ≤ distance cur e.1) d ds far all, e)
    later far (inr (j, v, e, h)) = inr (
      suc j,
      record {
        entry = v.entry;
        place = v.place;
        least =
            Each-cons (λ k e. distance cur v.entry.1 ≤ distance cur e.1) d ds
              (omega (arith, h, far)) v.least;
        first =
            Each-cons (λ k e. k < suc j → distance cur v.entry.1 < distance cur e.1) d ds
              (λ _. omega (arith, h, far)) (λ k e q l. v.first k e q (omega (arith, l)));
      },
      omega (arith, e),
      h,
    )

    step :
        Picked cur ds (suc i) (distance cur d.1) i (nearest cur ds (suc i) (distance cur d.1) i)
        → Picked cur ds (suc i) diff target (nearest cur ds (suc i) diff target)
        → Picked cur (d ∷ ds) i diff target (nearest cur (d ∷ ds) i diff target)
    step a b = elim (Bool-cases (ltb (distance cur d.1) diff)) [
      | inl closer ↦ rw (closer, nearest) (here (ground (arith, closer)) a)
      | inr far ↦ rw (far, nearest) (later (ground (arith, far)) b)
    ]

-- If the queue is not empty and all its tracks are less than 1000 away, the server picks the first of
-- the requests whose tracks are nearest.
pub target_of-Nearest :
    (s : Monitor)
    → s.disk_queue ≢ []
    → ((j : ℕ) (e : ℕ × ℕ) → get_elem? s.disk_queue j ≡ some e → distance s.cur_track e.1 < 1000)
    → Nearest s.cur_track s.disk_queue (target_of s)
unfolding target_of
target_of-Nearest s some_request near = elim (nearest-Picked s.cur_track s.disk_queue 0 1000 0) [
  | inl (all, _) ↦ absurd (nonempty s.disk_queue refl all)
  | inr (j, v, e, _) ↦ subst (Nearest s.cur_track s.disk_queue) (sym (e ∙ (omega arith))) v
]
  where
    nonempty :
        (l : List (ℕ × ℕ))
        → s.disk_queue ≡ l
        → ¬ Each (λ k e. 1000 ≤ distance s.cur_track e.1) s.disk_queue
    nonempty [] q all = some_request q
    nonempty (d ∷ ds) q all =
        let front = ap (λ l. get_elem? l 0) q in
        absurd (omega (arith, all 0 d front, near 0 d front))
