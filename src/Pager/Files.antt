-- ===== src/Pager/Files.antt =====
-- `file_id` of Project3/my_utils.h, the key of the maps of the pager, and the maps.
use eecs.Base.{
  ℕ, ◌≡◌, ◌≢◌, refl, sym, ap, ap₂, ◌↔◌, ◌⊎◌, inl, inr, Bool, true, false, not, ◌&&◌, List, [], ◌∷◌,
  ltb, bytes_eq, bytes_eq_iff, bytes_eq_refl, if◌then◌else◌, arith, Bool-cases, subst,
}

-- A block of the swap file, whose `_filename` is never set, or of a named file.
pub data FileId : Type 0 where
  swap_backed : ℕ → FileId
  file_backed : List ℕ → ℕ → FileId

abbrev pub is_swap_backed : FileId → Bool
is_swap_backed (swap_backed block) = true
is_swap_backed (file_backed filename block) = false

-- `operator<` of std::string.
unfoldable pub string_less : List ℕ → List ℕ → Bool
string_less [] [] = false
string_less [] (y ∷ ys) = true
string_less (x ∷ xs) [] = false
string_less (x ∷ xs) (y ∷ ys) =
    let rest = string_less xs ys in if ltb x y then true else if ltb y x then false else rest

unfoldable pub less : FileId → FileId → Bool
unfolding string_less
less (swap_backed a) (swap_backed b) = ltb a b
less (file_backed f a) (file_backed g b) = if not (bytes_eq f g) then string_less f g else ltb a b
less (swap_backed a) (file_backed g b) = false
less (file_backed f a) (swap_backed b) = true

-- What std::map takes for the same key.
unfoldable pub same_file : FileId → FileId → Bool
unfolding less
same_file a b = not (less a b) && not (less b a)

-- A map with a new value for one key.
abbrev pub assign {ℓ} : {A : Type ℓ} → (FileId → A) → FileId → A → FileId → A
assign f i v j = if same_file i j then v else f j

string_less-total :
    (xs ys : List ℕ) → string_less xs ys ≡ false → string_less ys xs ≡ false → xs ≡ ys
unfolding string_less
string_less-total [] [] a b = refl
string_less-total [] (y ∷ ys) a b = cc
string_less-total (x ∷ xs) [] a b = cc
string_less-total (x ∷ xs) (y ∷ ys) a b = ground (arith, string_less-total xs ys)

string_less_irrefl : (xs : List ℕ) → string_less xs xs ≡ false
unfolding string_less
string_less_irrefl [] = refl
string_less_irrefl (x ∷ xs) = ground (arith, string_less_irrefl xs)

less_irrefl : (a : FileId) → less a a ≡ false
unfolding less
less_irrefl (swap_backed a) = ground arith
less_irrefl (file_backed f a) = rw (bytes_eq_refl f) (ground arith)

pub same_file_refl : (a : FileId) → same_file a a ≡ true
unfolding same_file
same_file_refl a = rw (less_irrefl a) refl

same_file-name :
    (f g : List ℕ) (a b : ℕ)
    → same_file (file_backed f a) (file_backed g b) ≡ true
    → (bytes_eq f g ≡ true) ⊎ (bytes_eq f g ≡ false)
    → file_backed f a ≡ file_backed g b
unfolding same_file less
same_file-name f g a b h (inl same) =
    let e : bytes_eq g f ≡ true = (bytes_eq_iff g f).1 (sym ((bytes_eq_iff f g).0 same)) in
    let k : a ≡ b = ground arith in ap₂ file_backed ((bytes_eq_iff f g).0 same) k
same_file-name f g a b h (inr other) =
    let e : bytes_eq g f ≡ false = eq_false other in
    let s : string_less f g ≡ false = ground arith in
    let s' : string_less g f ≡ false = ground arith in
    let k : bytes_eq f g ≡ true = (bytes_eq_iff f g).1 (string_less-total f g s s') in cc
  where
    eq_false : bytes_eq f g ≡ false → bytes_eq g f ≡ false
    eq_false o = elim (Bool-cases (bytes_eq g f)) [
      | inl same ↦
          let k : bytes_eq f g ≡ true = (bytes_eq_iff f g).1 (sym ((bytes_eq_iff g f).0 same)) in cc
      | inr n ↦ n
    ]

same_file-eq : (a b : FileId) → same_file a b ≡ true → a ≡ b
unfolding same_file less
same_file-eq (swap_backed a) (swap_backed b) h = let e : a ≡ b = ground arith in ap swap_backed e
same_file-eq (swap_backed a) (file_backed g b) h = cc
same_file-eq (file_backed f a) (swap_backed b) h = cc
same_file-eq (file_backed f a) (file_backed g b) h =
    same_file-name f g a b h (Bool-cases (bytes_eq f g))

-- Two files are the same key exactly if they are the same.
pub same_file_iff : (a b : FileId) → (same_file a b ≡ true) ↔ (a ≡ b)
same_file_iff a b = (same_file-eq a b, λ e. subst (λ c. same_file a c ≡ true) e (same_file_refl a))

pub same_file_ne : (a b : FileId) → a ≢ b → same_file a b ≡ false
same_file_ne a b ne = elim (Bool-cases (same_file a b)) [
  | inl same ↦ absurd (ne (same_file-eq a b same))
  | inr other ↦ other
]

module _ {ℓ} {A : Type ℓ} where
  pub assign_self : (f : FileId → A) (i : FileId) (v : A) → assign f i v i ≡ v
  assign_self f i v = rw (same_file_refl i) refl

  pub assign_ne : (f : FileId → A) (i j : FileId) (v : A) → i ≢ j → assign f i v j ≡ f j
  assign_ne f i j v ne = rw (same_file_ne i j ne) refl

pub FileId-cases : (i j : FileId) → (i ≡ j) ⊎ (i ≢ j)
FileId-cases i j = elim (Bool-cases (same_file i j)) [
  | inl same ↦ inl (same_file-eq i j same)
  | inr other ↦ inr (λ e. let k : same_file i j ≡ true = (same_file_iff i j).1 e in cc)
]
