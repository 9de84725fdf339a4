-- ===== src/FileServer/Requests/Header.antt =====
-- The receiving loop of `handle_requests`.
use eecs.Base.{
  ℕ, ◌+◌, ◌≤◌, ◌<◌, ◌≡◌, ◌≢◌, refl, ◌⊎◌, inl, inr, true, false, List, [], ◌∷◌, ◌++◌, map, length,
  length-append, append_assoc, append-nil, ltb, ◌==◌, arith, NoNul, Bool-cases, ◌∙◌,
}
use eecs.FileServer.State.{done, returned}
use eecs.FileServer.Requests.{RecvByte, byte, max_header_len, header_loop}

module _ (buf : ℕ) (so_far : List ℕ) (c : ℕ) (more : List RecvByte) where
  header_loop-nul : c ≡ 0 → header_loop buf so_far (byte c ∷ more) ≡ λ s. (done so_far, s)
  unfolding header_loop
  header_loop-nul z = rw z refl

  header_loop-next :
      c ≢ 0
      → length so_far + 1 ≤ max_header_len
      → header_loop buf so_far (byte c ∷ more) ≡ header_loop c (so_far ++ c ∷ []) more
  header_loop-next nz short =
      unfold header_loop in
      let e : (c == 0) ≡ false = ground arith in
      let f : ltb max_header_len (length (so_far ++ c ∷ [])) ≡ false =
        ground (arith, length-append so_far (c ∷ [])) in
      rw (e, header_loop) (rw (f, header_loop) refl)

  header_loop-full :
      c ≢ 0
      → length so_far + 1 ≡ max_header_len + 1
      → header_loop buf so_far (byte c ∷ more) ≡ λ s. (returned, s)
  header_loop-full nz long =
      unfold header_loop in
      let e : (c == 0) ≡ false = ground arith in
      let f : ltb max_header_len (length (so_far ++ c ∷ [])) ≡ true =
        ground (arith, length-append so_far (c ∷ [])) in
      rw (e, header_loop) (rw (f, header_loop) refl)

-- What a client sends that terminates its header.
abbrev pub sent : List ℕ → List RecvByte → List RecvByte
sent h more = map byte h ++ byte 0 ∷ more

-- The loop takes the header if it fits, and gives the connection up otherwise.
abbrev pub Received : ℕ → List ℕ → List ℕ → List RecvByte → Type 0
Received buf so_far h more =
    ((length so_far + length h ≤ max_header_len)
      × (header_loop buf so_far (sent h more) ≡ λ s. (done (so_far ++ h), s)))
    ⊎ ((max_header_len < length so_far + length h)
        × (header_loop buf so_far (sent h more) ≡ λ s. (returned, s)))

header_loop-Received_from :
    (buf : ℕ) (so_far h : List ℕ) (more : List RecvByte)
    → NoNul h
    → length so_far ≤ max_header_len
    → Received buf so_far h more
header_loop-Received_from buf so_far [] more z fits =
    inl (omega (arith, fits), rw (append-nil so_far) (header_loop-nul buf so_far 0 more refl))
header_loop-Received_from buf so_far (c ∷ h) more z fits =
    elim (Bool-cases (ltb (length so_far) max_header_len)) [
      | inl room ↦ step (ground arith) (
          header_loop-Received_from c (so_far ++ c ∷ []) h more z.1
            (ground (arith, length-append so_far (c ∷ []))))
      | inr full ↦
          inr (ground arith, header_loop-full buf so_far c (sent h more) z.0 (ground arith))
    ]
  where
    step :
        length so_far + 1 ≤ max_header_len
        → Received c (so_far ++ c ∷ []) h more
        → Received buf so_far (c ∷ h) more
    step room (inl (short, e)) = inl (
      omega (arith, length-append so_far (c ∷ []), short),
      header_loop-next buf so_far c (sent h more) z.0 room
          ∙ e
          ∙ (λ k s. (done (append_assoc so_far (c ∷ []) h k), s)),
    )
    step room (inr (long, e)) = inr (
      omega (arith, length-append so_far (c ∷ []), long),
      header_loop-next buf so_far c (sent h more) z.0 room ∙ e,
    )

-- The receiving loop takes a header of at most 157 bytes that ends in a NUL, whatever follows it and
-- whatever the buffer held before, and gives the connection up on a longer one.
pub header_loop-Received :
    (buf : ℕ) (h : List ℕ) (more : List RecvByte) → NoNul h → Received buf [] h more
header_loop-Received buf h more z = header_loop-Received_from buf [] h more z (omega arith)
