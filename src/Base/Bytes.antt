-- ===== src/Base/Bytes.antt =====
-- Strings as lists of bytes: C strings in fixed arrays, comparison, occurrences.
use Prim.Native.Char.{code}
use Prim.Native.String.{String}
use Prim.Native.Nat.{ℕ, suc, ◌<◌}
use mathlib.Core.Path.{◌≡◌, refl}
use mathlib.Core.Logic.{◌≢◌, ◌↔◌}
use mathlib.Core.Bool.{Bool, true, false, ◌&&◌}
use mathlib.Core.List.{List, [], ◌∷◌, ◌++◌}
use native.Mathlib.Omega.{arith}
use eecs.Base.Tests.{◌==◌, if◌then◌else◌}
use eecs.Base.Lists.{length, drop, length-append, length-drop}

-- The bytes of an ASCII text.
abbrev pub codes : String → List ℕ
codes String.[] = []
codes (String.◌∷◌ c s) = code c ∷ codes s

-- `==` of std::string.
unfoldable pub bytes_eq : List ℕ → List ℕ → Bool
bytes_eq [] [] = true
bytes_eq [] (y ∷ ys) = false
bytes_eq (x ∷ xs) [] = false
bytes_eq (x ∷ xs) (y ∷ ys) = x == y && bytes_eq xs ys

pub bytes_eq_iff : (xs ys : List ℕ) → (bytes_eq xs ys ≡ true) ↔ (xs ≡ ys)
unfolding bytes_eq
bytes_eq_iff [] [] = (λ _. refl, λ _. refl)
bytes_eq_iff [] (y ∷ ys) = (λ e. cc, λ e. cc)
bytes_eq_iff (x ∷ xs) [] = (λ e. cc, λ e. cc)
bytes_eq_iff (x ∷ xs) (y ∷ ys) = ground (arith, bytes_eq_iff xs ys)

pub bytes_eq_refl : (xs : List ℕ) → bytes_eq xs xs ≡ true
bytes_eq_refl xs = (bytes_eq_iff xs xs).1 refl

-- The string that a char array holds: the bytes before the first NUL.
unfoldable pub c_str : List ℕ → List ℕ
c_str [] = []
c_str (x ∷ xs) = if x == 0 then [] else x ∷ c_str xs

-- strcpy(dst, src): src and a NUL overwrite the front of dst, whose remaining bytes stay.
unfoldable pub strcpy : List ℕ → List ℕ → List ℕ
strcpy dst src = src ++ 0 ∷ drop (suc (length src)) dst

-- A string with no NUL inside.
abbrev pub NoNul : List ℕ → Type 0
NoNul [] = Unit {0}
NoNul (x ∷ xs) = (x ≢ 0) × NoNul xs

c_str-append : (r s : List ℕ) → NoNul s → c_str (s ++ 0 ∷ r) ≡ s
unfolding c_str
c_str-append r [] h = refl
c_str-append r (x ∷ s) h = ground (arith, c_str-append r s h.1)

-- What strcpy wrote is read back.
pub c_str-strcpy : (dst src : List ℕ) → NoNul src → c_str (strcpy dst src) ≡ src
unfolding strcpy
c_str-strcpy dst src h = c_str-append (drop (suc (length src)) dst) src h

pub length-strcpy :
    (dst src : List ℕ) → length src < length dst → length (strcpy dst src) ≡ length dst
unfolding strcpy
length-strcpy dst src h =
    omega (
      arith,
      length-append src (0 ∷ drop (suc (length src)) dst),
      length-drop (suc (length src)) dst,
    )
