-- ===== src/DiskScheduler/Counts.antt =====
-- How many requesters there are of a kind, and how often one stands in the queue.
use eecs.Base.{
  ℕ, zero, suc, ◌+◌, ◌<◌, ◌≡◌, ◌≢◌, refl, sym, ap, ◌∙◌, ◌⊎◌, inl, inr, Bool, true, false, List, [],
  ◌∷◌, ◌++◌, length, get_or, ◌==◌, if◌then◌else◌, arith, Bool-cases,
}
use eecs.DiskScheduler.{erase_at}

unfoldable pub count_if : (ℕ → Bool) → ℕ → ℕ
count_if f zero = 0
count_if f (suc n) = let rest = count_if f n in if f n then suc rest else rest

pub count_if-same :
    (f g : ℕ → Bool) (n : ℕ) → ((i : ℕ) → i < n → f i ≡ g i) → count_if f n ≡ count_if g n
unfolding count_if
count_if-same f g zero e = refl
count_if-same f g (suc n) e =
    let ih = count_if-same f g n (λ i k. e i (omega (arith, k))) in
    ap (λ b. if b then suc (count_if f n) else count_if f n) (e n (omega arith))
    ∙ ap (λ x. if g n then suc x else x) ih

last_or_before : (k n : ℕ) → k < suc n → (k < n) ⊎ (k ≡ n)
last_or_before k n h = ground arith

-- One fewer.
pub count_if-drop :
    (f g : ℕ → Bool) (n k : ℕ)
    → k < n
    → f k ≡ true
    → g k ≡ false
    → ((i : ℕ) → i ≢ k → f i ≡ g i)
    → count_if f n ≡ suc (count_if g n)
unfolding count_if
count_if-drop f g zero k h a b e = absurd (omega (arith, h))
count_if-drop f g (suc n) k h a b e = elim (last_or_before k n h) [
  | inl l ↦
      let ih = count_if-drop f g n k l a b e in
      let c = e n (λ z. omega (arith, z, l)) in ground (arith, ih, c)
  | inr l ↦
      let c = count_if-same f g n (λ i m. e i (λ z. omega (arith, z, l, m))) in
      let a' : f n ≡ true = ap f (sym l) ∙ a in
      let b' : g n ≡ false = ap g (sym l) ∙ b in ground (arith, c, a', b')
]

pub count_if-zero : (f : ℕ → Bool) (n i : ℕ) → count_if f n ≡ 0 → i < n → f i ≡ false
unfolding count_if
count_if-zero f zero i z k = absurd (omega (arith, k))
count_if-zero f (suc n) i z k = elim (Bool-cases (f n)) [
  | inl t ↦ absurd (ground (arith, z, t))
  | inr e ↦ elim (last_or_before i n k) [
    | inl l ↦ count_if-zero f n i (ground (arith, z, e)) l
    | inr same ↦ ap f same ∙ e
  ]
]

-- Of two kinds, the larger has one that the smaller has not.
pub count_if-exists :
    (f g : ℕ → Bool) (n : ℕ)
    → count_if f n < count_if g n
    → (i : ℕ) × (i < n) × (g i ≡ true) × (f i ≡ false)
unfolding count_if
count_if-exists f g zero h = absurd (omega (arith, h))
count_if-exists f g (suc n) h = elim (Bool-cases (g n)) [
  | inr e ↦ wider (count_if-exists f g n (ground (arith, h, e)))
  | inl e ↦ elim (Bool-cases (f n)) [
    | inl d ↦ wider (count_if-exists f g n (ground (arith, h, e, d)))
    | inr d ↦ (n, omega arith, e, d)
  ]
]
  where
    wider :
        (i : ℕ) × (i < n) × (g i ≡ true) × (f i ≡ false)
        → (i : ℕ) × (i < suc n) × (g i ≡ true) × (f i ≡ false)
    wider (i, k, a, b) = (i, omega (arith, k), a, b)

unfoldable pub occurrences : ℕ → List (ℕ × ℕ) → ℕ
occurrences i [] = 0
occurrences i (d ∷ ds) = let rest = occurrences i ds in if d.0 == i then suc rest else rest

pub occurrences-append :
    (i : ℕ) (xs ys : List (ℕ × ℕ)) → occurrences i (xs ++ ys) ≡ occurrences i xs + occurrences i ys
unfolding occurrences
occurrences-append i [] ys = omega arith
occurrences-append i (x ∷ xs) ys = ground (arith, occurrences-append i xs ys)

pub occurrences-erase_at :
    (i k : ℕ) (xs : List (ℕ × ℕ))
    → k < length xs
    → occurrences i xs ≡ (
        if (get_or xs k (0, 0)).0 == i
        then suc (occurrences i (erase_at xs k))
        else occurrences i (erase_at xs k))
unfolding occurrences erase_at
occurrences-erase_at i k [] h = absurd (omega (arith, h))
occurrences-erase_at i zero (x ∷ xs) h = refl
occurrences-erase_at i (suc k) (x ∷ xs) h =
    let ih = occurrences-erase_at i k xs (omega (arith, h)) in ground (arith, ih)
