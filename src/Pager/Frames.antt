-- ===== src/Pager/Frames.antt =====
-- How often a physical page stands in the queues of the pager.
use eecs.Base.{
  true, ℕ, zero, suc, ◌+◌, ◌-◌, ◌≤◌, ◌<◌, ◌≡◌, ◌≢◌, ◌⊎◌, inl, inr, refl, sym, subst, ap, Memᴰ,
  Bool-cases, List, [], ◌∷◌, ◌++◌, ◌==◌, if◌then◌else◌, arith,
}
use mathlib.Core.List.Memᴰ
use eecs.Pager.Processes.{remove_first, count_from}

unfoldable pub count : ℕ → List ℕ → ℕ
count p [] = 0
count p (x ∷ xs) = let rest = count p xs in if x == p then suc rest else rest

pub count-none : (p : ℕ) (xs : List ℕ) → xs ≡ [] → count p xs ≡ 0
unfolding count
count-none p xs e = ap (count p) e

pub count-append : (p : ℕ) (xs ys : List ℕ) → count p (xs ++ ys) ≡ count p xs + count p ys
unfolding count
count-append p [] ys = omega arith
count-append p (x ∷ xs) ys = ground (arith, count-append p xs ys)

pub count_self : (p : ℕ) (xs : List ℕ) → count p (p ∷ xs) ≡ suc (count p xs)
unfolding count
count_self p xs = ground arith

pub count-other : (p q : ℕ) (xs : List ℕ) → p ≢ q → count p (q ∷ xs) ≡ count p xs
unfolding count
count-other p q xs ne = ground arith

pub count-cons : (p q : ℕ) (xs : List ℕ) → count p xs ≤ count p (q ∷ xs)
unfolding count
count-cons p q xs = ground arith

-- A page goes to the end.
pub count-rotate : (p q : ℕ) (xs : List ℕ) → count p (xs ++ q ∷ []) ≡ count p (q ∷ xs)
unfolding count
count-rotate p q xs = ground (arith, count-append p xs (q ∷ []))

-- The physical pages 1 to n - 1 are available or in the clock, each once, and no others are.
abbrev pub Frames : ℕ → List ℕ → List ℕ → Type 0
Frames n available clock =
    (p : ℕ)
    → (1 ≤ p → p < n → count p available + count p clock ≡ 1)
      × (1 ≤ count p available + count p clock → (1 ≤ p) × (p < n))

pub Frames-bounds :
    (n p : ℕ) (xs ys : List ℕ)
    → Frames n xs ys
    → 1 ≤ count p xs + count p ys
    → (1 ≤ p) × (p < n) × (count p xs + count p ys ≡ 1)
Frames-bounds n p xs ys f k = let b = (f p).1 k in (b.0, b.1, (f p).0 (b.0) (b.1))

pub Frames-same :
    (n : ℕ) (xs ys xs' ys' : List ℕ)
    → ((q : ℕ) → count q xs' + count q ys' ≡ count q xs + count q ys)
    → Frames n xs ys
    → Frames n xs' ys'
Frames-same n xs ys xs' ys' e f q =
    (λ h k. omega (arith, e q, (f q).0 h k), λ h. (f q).1 (omega (arith, e q)))

-- A page goes from the front of one queue to the end of the other.
pub Frames-move : (n p : ℕ) (xs ys : List ℕ) → Frames n xs (p ∷ ys) → Frames n (xs ++ p ∷ []) ys
unfolding count
Frames-move n p xs ys =
    Frames-same n xs (p ∷ ys) (xs ++ p ∷ []) ys (λ q. ground (arith, count-append q xs (p ∷ [])))

pub Frames-rotate : (n p : ℕ) (xs ys : List ℕ) → Frames n xs (p ∷ ys) → Frames n xs (ys ++ p ∷ [])
Frames-rotate n p xs ys =
    Frames-same n xs (p ∷ ys) xs (ys ++ p ∷ []) (λ q. omega (arith, count-rotate q p ys))

pub Frames-take : (n p : ℕ) (xs ys : List ℕ) → Frames n (p ∷ xs) ys → Frames n xs (ys ++ p ∷ [])
unfolding count
Frames-take n p xs ys =
    Frames-same n (p ∷ xs) ys xs (ys ++ p ∷ []) (λ q. ground (arith, count-append q ys (p ∷ [])))

eq_or_other : (i p : ℕ) → (i ≡ p) ⊎ (i ≢ p)
eq_or_other i p = ground arith

pub count-remove_first_other :
    (p q : ℕ) (xs : List ℕ) → p ≢ q → count p (remove_first q xs) ≡ count p xs
unfolding count remove_first
count-remove_first_other p q [] ne = refl
count-remove_first_other p q (x ∷ xs) ne = ground (arith, count-remove_first_other p q xs ne, ne)

pub count-remove_first_self : (q : ℕ) (xs : List ℕ) → count q (remove_first q xs) ≡ count q xs - 1
unfolding count remove_first
count-remove_first_self q [] = omega arith
count-remove_first_self q (x ∷ xs) = ground (arith, count-remove_first_self q xs)

pub remove_first-Mem : (w q : ℕ) (xs : List ℕ) → Memᴰ w (remove_first q xs) → Memᴰ w xs
unfolding remove_first
remove_first-Mem w q [] m = m
remove_first-Mem w q (x ∷ xs) m = elim (Bool-cases (x == q)) [
  | inl e ↦ Memᴰ.tail (subst (Memᴰ w) (ap (λ b. if b then xs else x ∷ remove_first q xs) e) m)
  | inr e ↦
      elim (Memᴰ.cases_cons
        (subst (Memᴰ w) (ap (λ b. if b then xs else x ∷ remove_first q xs) e) m)) [
          | inl k ↦ Memᴰ.head k
          | inr old ↦ Memᴰ.tail (remove_first-Mem w q xs old)
        ]
]

pub remove_first-keeps : (w q : ℕ) (xs : List ℕ) → w ≢ q → Memᴰ w xs → Memᴰ w (remove_first q xs)
unfolding remove_first
remove_first-keeps w q [] ne m = m
remove_first-keeps w q (x ∷ xs) ne m = elim (Bool-cases (x == q)) [
  | inl e ↦
      subst (Memᴰ w) (sym (ap (λ b. if b then xs else x ∷ remove_first q xs) e))
        (elim (Memᴰ.cases_cons m) [ inl k ↦ absurd (ne (equal x e k)) | inr old ↦ old ])
  | inr e ↦
      subst (Memᴰ w) (sym (ap (λ b. if b then xs else x ∷ remove_first q xs) e))
        (elim (Memᴰ.cases_cons m) [
          | inl k ↦ Memᴰ.head k
          | inr old ↦ Memᴰ.tail (remove_first-keeps w q xs ne old)
        ])
]
  where
    equal : (x : ℕ) → (x == q) ≡ true → w ≡ x → w ≡ q
    equal x e k = ground (arith, e, k)

-- A page goes from its place in the clock to the end of the available ones.
pub Frames-free :
    (n q : ℕ) (xs ys : List ℕ)
    → 1 ≤ count q ys
    → Frames n xs ys
    → Frames n (xs ++ q ∷ []) (remove_first q ys)
unfolding count
Frames-free n q xs ys k = Frames-same n xs ys (xs ++ q ∷ []) (remove_first q ys) (λ p.
    elim (eq_or_other p q) [
      | inl e ↦ subst same (sym e) own
      | inr ne ↦ ground (arith, count-append p xs (q ∷ []), count-remove_first_other p q ys ne, ne)
    ])
  where
    same : ℕ → Type 0
    same p = count p (xs ++ q ∷ []) + count p (remove_first q ys) ≡ count p xs + count p ys

    own : same q
    own =
        omega (arith, count-append q xs (q ∷ []), count_self q [], count-remove_first_self q ys, k)

eq_or_less : (i p : ℕ) → i ≤ p → (i ≡ p) ⊎ (suc i ≤ p)
eq_or_less i p h = ground arith

count-before : (p i k : ℕ) → p < i → count p (count_from i k) ≡ 0
unfolding count count_from
count-before p i zero h = omega arith
count-before p i (suc k) h = ground (arith, count-before p (suc i) k (omega arith))

pub count-within : (p i k : ℕ) → i ≤ p → p < i + k → count p (count_from i k) ≡ 1
unfolding count count_from
count-within p i zero h b = absurd (omega arith)
count-within p i (suc k) h b = elim (eq_or_less i p h) [
  | inl e ↦ ground (arith, count-before p (suc i) k (omega arith), e)
  | inr l ↦ ground (arith, count-within p (suc i) k l (omega arith), l)
]

pub count-bounds : (p i k : ℕ) → 1 ≤ count p (count_from i k) → (i ≤ p) × (p < i + k)
unfolding count count_from
count-bounds p i zero h = absurd (omega arith)
count-bounds p i (suc k) h = elim (eq_or_other i p) [
  | inl e ↦ (omega (arith, e), omega (arith, e))
  | inr ne ↦
      let ih = count-bounds p (suc i) k (ground (arith, ne, h)) in
      (omega (arith, ih.0), omega (arith, ih.1))
]

-- At the start all pages are available.
pub Frames-start : (n : ℕ) → Frames n (count_from 1 (n - 1)) []
unfolding count
Frames-start n p = (
  λ a b. omega (arith, count-within p 1 (n - 1) a (omega arith)),
  λ a. let b = count-bounds p 1 (n - 1) (omega arith) in (b.0, omega (arith, b.0, b.1)),
)
