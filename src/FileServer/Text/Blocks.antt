-- ===== src/FileServer/Text/Blocks.antt =====
-- What `isblock` accepts, and what `stoi` then returns.
use eecs.Base.{
  ◌≢◌, ◌^◌, ltb, some, none, ℕ, ◌≤◌, ◌<◌, ◌≡◌, refl, ◌↔◌, true, List, [], ◌∷◌, length, arith, All,
}
use eecs.FileServer.Text.{all_digits, isblock, stoi_from, stoi}

abbrev pub IsDigit : ℕ → Type 0
IsDigit c = (b'0' ≤ c) × (c ≤ b'9')

all_digits_iff : (s : List ℕ) → (all_digits s ≡ true) ↔ All IsDigit s
unfolding all_digits
all_digits_iff [] = (λ _. tt, λ _. refl)
all_digits_iff (c ∷ s) = ground (arith, all_digits_iff s)

-- `isblock` accepts exactly the texts of at most three characters that are all decimal digits.
pub isblock_iff : (s : List ℕ) → (isblock s ≡ true) ↔ ((length s ≤ 3) × All IsDigit s)
unfolding isblock
isblock_iff s = ground (arith, all_digits_iff s)

abbrev Stands : List ℕ → Type 0
Stands s = (n : ℕ) × (stoi s ≡ some n) × (n < 1000)

fits : (v : ℕ) → v < 1000 → ltb v (2 ^ 31) ≡ true
fits v h = ground arith

in_range : (c : ℕ) (s : List ℕ) → stoi_from 0 (c ∷ s) < 1000 → Stands (c ∷ s)
unfolding stoi
in_range c s small = (stoi_from 0 (c ∷ s), rw (fits _ small) refl, small)

digits-stoi : (s : List ℕ) → s ≢ [] → length s ≤ 3 → All IsDigit s → Stands s
unfolding stoi_from
digits-stoi [] ne h d = absurd (ne refl)
digits-stoi (a ∷ []) ne h d = in_range a [] (omega arith)
digits-stoi (a ∷ b ∷ []) ne h d = in_range a (b ∷ []) (omega arith)
digits-stoi (a ∷ b ∷ c ∷ []) ne h d = in_range a (b ∷ c ∷ []) (omega arith)
digits-stoi (a ∷ b ∷ c ∷ e ∷ s) ne h d = absurd (omega arith)

-- On a text that is not empty and that `isblock` accepts, `stoi` does not throw: the text stands for
-- a number below 1000.
pub isblock-stoi :
    (s : List ℕ) → s ≢ [] → isblock s ≡ true → (n : ℕ) × (stoi s ≡ some n) × (n < 1000)
isblock-stoi s ne h = let (short, digits) = (isblock_iff s).0 h in digits-stoi s ne short digits

-- `isblock` accepts the empty text, on which `stoi` throws; `>>` reads no such word.
empty_throws : (isblock [] ≡ true) × (stoi [] ≡ none)
unfolding isblock all_digits stoi
empty_throws = (refl, refl)
