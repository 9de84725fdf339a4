-- ===== src/FileServer/Text/Spaces.antt =====
-- `find_space` and the spaces of a header, and `check_request_type`.
use eecs.Base.{
  ℕ, zero, suc, ◌+◌, ◌≤◌, ◌≡◌, refl, ◌⊎◌, ◌↔◌, inl, inr, none, some, List, [], ◌∷◌, length, arith,
  ◌==◌, if◌then◌else◌, Bool-cases, codes, bytes_eq, bytes_eq_iff,
}
use eecs.FileServer.Text.{after_space, find_space_loop, find_space, check_request_type}

-- The number of spaces in a text.
abbrev pub spaces : List ℕ → ℕ
spaces [] = 0
spaces (c ∷ s) = (if c == b' ' then 1 else 0) + spaces s

after_space_lem :
    (s : List ℕ)
    → ((after_space s ≡ none) × (spaces s ≡ 0))
      ⊎ ((r : List ℕ) × (after_space s ≡ some r)
          × (spaces s ≡ suc (spaces r))
          × (suc (length r) ≤ length s))
unfolding after_space
after_space_lem [] = inl (refl, refl)
after_space_lem (c ∷ s) = elim (Bool-cases (c == b' ')) [
  | inl e ↦ inr (s, rw e, rw e (omega arith), omega arith)
  | inr e ↦ elim (after_space_lem s) [
    | inl (p, q) ↦ inl (rw e p, rw e (omega arith))
    | inr (r, p, q, l) ↦ inr (r, rw e p, rw e (omega arith), omega arith)
  ]
]

find_space_loop_lem :
    (fuel : ℕ) (s : List ℕ) (cnt : ℕ)
    → length s ≤ fuel
    → find_space_loop fuel s cnt ≡ cnt + spaces s
unfolding find_space_loop
find_space_loop_lem zero [] cnt h = omega arith
find_space_loop_lem zero (c ∷ s) cnt h = absurd (omega arith)
find_space_loop_lem (suc fuel) s cnt h = elim (after_space_lem s) [
  | inl (p, q) ↦ rw (p, find_space_loop) (omega arith)
  | inr (r, p, q, l) ↦
      rw (p, find_space_loop) (omega (arith, find_space_loop_lem fuel r (cnt + 1) (omega arith)))
]

-- `find_space` returns the number of spaces of the header, for every header.
pub find_space-spaces : (s : List ℕ) → find_space s ≡ spaces s
unfolding find_space
find_space-spaces s = omega (arith, find_space_loop_lem (length s) s 0 (omega arith))

abbrev pub Dispatches : List ℕ → List ℕ → ℕ → List ℕ → ℕ → Type 0
Dispatches t h code name n = (check_request_type t h ≡ code) ↔ ((t ≡ name) × (spaces h ≡ n))

-- A request is dispatched as a read, a write, a create or a delete exactly when its first word is
-- the command's name and its header has the command's number of spaces.
pub check_request_type-Dispatches :
    (t h : List ℕ)
    → Dispatches t h 1 (codes "FS_READBLOCK") 3
      × Dispatches t h 2 (codes "FS_WRITEBLOCK") 3
      × Dispatches t h 3 (codes "FS_CREATE") 3
      × Dispatches t h 4 (codes "FS_DELETE") 2
unfolding check_request_type bytes_eq
check_request_type-Dispatches t h =
    let r = bytes_eq_iff t (codes "FS_READBLOCK") in
    let w = bytes_eq_iff t (codes "FS_WRITEBLOCK") in
    let c = bytes_eq_iff t (codes "FS_CREATE") in
    let d = bytes_eq_iff t (codes "FS_DELETE") in
    let s = find_space-spaces h in
    (
      ground (arith, r, w, c, d, s),
      ground (arith, r, w, c, d, s),
      ground (arith, r, w, c, d, s),
      ground (arith, r, w, c, d, s),
    )
