-- ===== src/FileServer/Layout/Exact.antt =====
-- A disk block is the image of what is read from it: no byte of it is lost.
use eecs.Base.{
  ℕ, zero, suc, ◌+◌, ◌*◌, ◌/◌, ◌%◌, ◌≡◌, refl, ap, ap₂, ◌∙◌, List, [], ◌∷◌, ◌++◌, length, take,
  drop, All, arith, length-take, length-drop, All-take, All-drop,
}
use eecs.FileServer.Layout.{
  Block, get_u32, put_u32, get_u32s, put_u32s, head_or_zero, decode_inode, encode_inode,
  decode_entries_from, decode_entries, encode_entries, IsByte, IsBlock,
}

module _ {ℓ} {A : Type ℓ} where
  take-drop : (n : ℕ) (xs : List A) → take n xs ++ drop n xs ≡ xs
  take-drop zero xs = refl
  take-drop (suc n) [] = refl
  take-drop (suc n) (x ∷ xs) = ap (λ l. x ∷ l) (take-drop n xs)

put_u32-get_u32 : (b : List ℕ) → length b ≡ 4 → All IsByte b → put_u32 (get_u32 b) ≡ b
unfolding put_u32 get_u32
put_u32-get_u32 [] e h = absurd (omega (arith, e))
put_u32-get_u32 (x ∷ []) e h = absurd (omega (arith, e))
put_u32-get_u32 (x ∷ y ∷ []) e h = absurd (omega (arith, e))
put_u32-get_u32 (x ∷ y ∷ z ∷ []) e h = absurd (omega (arith, e))
put_u32-get_u32 (x ∷ y ∷ z ∷ w ∷ v ∷ r) e h = absurd (omega (arith, e))
put_u32-get_u32 (x ∷ y ∷ z ∷ w ∷ []) e h =
    let n = x + 256 * (y + 256 * (z + 256 * w)) in
    let e0 : n % 256 ≡ x = omega arith in
    let e1 : n / 256 % 256 ≡ y = omega arith in
    let e2 : n / 65536 % 256 ≡ z = omega arith in
    let e3 : n / 16777216 % 256 ≡ w = omega arith in λ k. e0 k ∷ e1 k ∷ e2 k ∷ e3 k ∷ []

put_u32s-get_u32s :
    (k : ℕ) (b : List ℕ) → length b ≡ 4 * k → All IsByte b → put_u32s (get_u32s k b) ≡ b
put_u32s-get_u32s zero [] e h = unfold put_u32s get_u32s in refl
put_u32s-get_u32s zero (x ∷ b) e h = absurd (omega (arith, e))
put_u32s-get_u32s (suc k) b e h =
    step
      (put_u32s-get_u32s k (drop 4 b) (omega (arith, e, length-drop 4 b)) (All-drop IsByte 4 b h))
  where
    step : put_u32s (get_u32s k (drop 4 b)) ≡ drop 4 b → put_u32s (get_u32s (suc k) b) ≡ b
    step ih =
        unfold put_u32s get_u32s in
        ap₂ (λ x y. x ++ y)
          (put_u32-get_u32 (take 4 b) (omega (arith, e, length-take 4 b)) (All-take IsByte 4 b h))
          ih
        ∙ take-drop 4 b

first_byte : (b : List ℕ) → length b ≡ 512 → head_or_zero (take 1 b) ∷ drop 1 b ≡ b
first_byte [] e = absurd (omega (arith, e))
first_byte (x ∷ b) e = refl

pub encode_inode-decode_inode : (b : Block) → IsBlock b → encode_inode (decode_inode b) ≡ b
unfolding encode_inode decode_inode
encode_inode-decode_inode b v =
    ap (λ l. head_or_zero (take 1 b) ∷ l)
      (ap (λ l. take 11 (drop 1 b) ++ l)
          (ap₂ (λ x y. x ++ y)
              (put_u32-get_u32 (take 4 (drop 11 (drop 1 b))) four
                (All-take IsByte 4 _ (All-drop IsByte 11 _ (All-drop IsByte 1 b v.1))))
              (put_u32s-get_u32s 124 (drop 4 (drop 11 (drop 1 b))) words
                (All-drop IsByte 4 _ (All-drop IsByte 11 _ (All-drop IsByte 1 b v.1))))
            ∙ take-drop 4 (drop 11 (drop 1 b)))
        ∙ take-drop 11 (drop 1 b))
    ∙ first_byte b v.0
  where
    four : length (take 4 (drop 11 (drop 1 b))) ≡ 4
    four =
        omega (
          arith,
          v.0,
          length-take 4 (drop 11 (drop 1 b)),
          length-drop 11 (drop 1 b),
          length-drop 1 b,
        )

    words : length (drop 4 (drop 11 (drop 1 b))) ≡ 4 * 124
    words =
        omega (
          arith,
          v.0,
          length-drop 4 (drop 11 (drop 1 b)),
          length-drop 11 (drop 1 b),
          length-drop 1 b,
        )

entries_from :
    (k : ℕ) (b : Block)
    → length b ≡ k * 64
    → All IsByte b
    → encode_entries (decode_entries_from k b) ≡ b
entries_from zero [] e h = unfold encode_entries decode_entries_from in refl
entries_from zero (x ∷ b) e h = absurd (omega (arith, e))
entries_from (suc k) b e h = step (
    entries_from k (drop 4 (drop 60 b))
      (omega (arith, e, length-drop 4 (drop 60 b), length-drop 60 b))
      (All-drop IsByte 4 _ (All-drop IsByte 60 b h)))
  where
    step :
        encode_entries (decode_entries_from k (drop 4 (drop 60 b))) ≡ drop 4 (drop 60 b)
        → encode_entries (decode_entries_from (suc k) b) ≡ b
    step ih =
        unfold encode_entries decode_entries_from in
        ap (λ l. take 60 b ++ l)
          (ap₂ (λ x y. x ++ y)
              (put_u32-get_u32 (take 4 (drop 60 b))
                (omega (arith, e, length-take 4 (drop 60 b), length-drop 60 b))
                (All-take IsByte 4 _ (All-drop IsByte 60 b h)))
              ih
            ∙ take-drop 4 (drop 60 b))
        ∙ take-drop 60 b

pub encode_entries-decode_entries : (b : Block) → IsBlock b → encode_entries (decode_entries b) ≡ b
unfolding decode_entries
encode_entries-decode_entries b v = entries_from 8 b v.0 v.1
