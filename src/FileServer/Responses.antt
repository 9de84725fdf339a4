-- ===== src/FileServer/Responses.antt =====
-- `send_response` of Project4/utils.cpp.
use eecs.Base.{
  ℕ, zero, suc, ◌+◌, ◌≤◌, ◌<◌, ◌≡◌, refl, sym, ap, ◌∙◌, List, [], ◌∷◌, ◌++◌, map, length, take,
  drop, Option, none, some, ltb, if◌then◌else◌, arith, All, Bool-cases, inl, inr, ltb→lt,
}

-- What `send` returns: how many of the bytes it has taken, or -1.
pub data Sent : Type 0 where
  taken : ℕ → Sent
  failed : Sent

-- The loop, with the results of its calls of `send` and the bytes that have gone out; `none` if it has
-- not ended after them, or if it reads before the message.
unfoldable pub send_loop : List Sent → List ℕ → ℕ → List ℕ → Option (List ℕ)
send_loop [] message sent out = none
send_loop (taken n ∷ rest) message sent out =
    let out' = out ++ take n (drop sent message) in
    let more = send_loop rest message (sent + n) out' in
    if ltb (sent + n) (length message) then more else some out'
send_loop (failed ∷ rest) message zero out = none
send_loop (failed ∷ rest) message (suc sent) out = send_loop rest message sent out

unfoldable pub send_response : List Sent → List ℕ → Option (List ℕ)
unfolding send_loop
send_response results message = send_loop results message 0 []

abbrev pub sum : List ℕ → ℕ
sum [] = 0
sum (n ∷ ns) = n + sum ns

take-nil : (n : ℕ) → take {A = ℕ} n [] ≡ []
take-nil zero = refl
take-nil (suc n) = refl

take-drop-append : (m n : ℕ) (xs : List ℕ) → take m xs ++ take n (drop m xs) ≡ take (m + n) xs
take-drop-append zero n xs = ap (λ k. take k xs) (omega arith)
take-drop-append (suc m) n [] = take-nil n ∙ sym (take-nil (suc m + n))
take-drop-append (suc m) n (x ∷ xs) =
    let k : suc (m + n) ≡ suc m + n = omega arith in
    ap (λ ys. x ∷ ys) (take-drop-append m n xs) ∙ ap (λ k. take k (x ∷ xs)) k

take-all : (n : ℕ) (xs : List ℕ) → length xs ≤ n → take n xs ≡ xs
take-all zero [] h = refl
take-all zero (x ∷ xs) h = absurd (omega (arith, h))
take-all (suc n) [] h = refl
take-all (suc n) (x ∷ xs) h = ap (λ ys. x ∷ ys) (take-all n xs (omega (arith, h)))

send_loop-Sent :
    (ns : List ℕ) (message : List ℕ) (sent : ℕ)
    → All (λ n. 1 ≤ n) ns
    → sent < length message
    → sent + sum ns ≡ length message
    → send_loop (map taken ns) message sent (take sent message) ≡ some message
unfolding send_loop
send_loop-Sent [] message sent h k e = absurd (omega (arith, k, e))
send_loop-Sent (n ∷ ns) message sent h k e =
    let out = take sent message ++ take n (drop sent message) in
    elim (Bool-cases (ltb (sent + n) (length message))) [
      | inl less ↦
          ap (λ b. if b then send_loop (map taken ns) message (sent + n) out else some out) less
          ∙ ap (send_loop (map taken ns) message (sent + n)) (take-drop-append sent n message)
          ∙ send_loop-Sent ns message (sent + n) h.1 (ltb→lt (sent + n) (length message) less)
              (omega (arith, e))
      | inr done ↦
          ap (λ b. if b then send_loop (map taken ns) message (sent + n) out else some out) done
          ∙ ap some
              (take-drop-append sent n message ∙ take-all (sent + n) message (ground (arith, done)))
    ]

-- Where `send` takes at least a byte of what it is given each time, until it has taken all of a message that is
-- not empty, the loop ends with its last call and exactly the message has gone out.
pub send_response-Sent :
    (ns : List ℕ) (message : List ℕ)
    → All (λ n. 1 ≤ n) ns
    → 0 < length message
    → sum ns ≡ length message
    → send_response (map taken ns) message ≡ some message
unfolding send_response
send_response-Sent ns message h k e = send_loop-Sent ns message 0 h k (omega (arith, e))
