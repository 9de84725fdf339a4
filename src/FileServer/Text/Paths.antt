-- ===== src/FileServer/Text/Paths.antt =====
-- `path_parser`, and the joining of names by slashes.
use eecs.Base.{
  ℕ, zero, suc, ◌∙◌, ap, sym, subst, append-nil, length-append, ◌≤◌, ◌<◌, ◌≡◌, refl, ◌≢◌, ◌⊎◌, inl,
  inr, ◌↔◌, true, false, Option, none, some, List, [], ◌∷◌, ◌++◌, length, arith, ◌==◌, All,
  Bool-cases,
}
use eecs.FileServer.Params.{fs_maxfilename}
use eecs.FileServer.Text.{
  until_slash, getline, name_ok, push_name, parse_loop, path_parser, last_is_slash,
}

abbrev pub NoSlash : List ℕ → Type 0
NoSlash [] = Unit {0}
NoSlash (c ∷ s) = (c ≢ b'/') × NoSlash s

-- A name that a directory entry can hold.
abbrev pub IsName : List ℕ → Type 0
IsName n = NoSlash n × (0 < length n) × (length n ≤ fs_maxfilename)

-- The absolute path of a list of names.
abbrev pub join : List (List ℕ) → List ℕ
join [] = []
join (n ∷ ns) = b'/' ∷ (n ++ join ns)

-- The same without the leading slash.
abbrev joined : List (List ℕ) → List ℕ
joined [] = []
joined (n ∷ ns) = n ++ join ns

until_slash-NoSlash : (n : List ℕ) → NoSlash n → until_slash n ≡ (n, [])
unfolding until_slash
until_slash-NoSlash [] h = refl
until_slash-NoSlash (c ∷ n) h = ground (arith, until_slash-NoSlash n h.1)

until_slash-append : (n r : List ℕ) → NoSlash n → until_slash (n ++ b'/' ∷ r) ≡ (n, r)
unfolding until_slash
until_slash-append [] r h = refl
until_slash-append (c ∷ n) r h = ground (arith, until_slash-append n r h.1)

-- A text has no slash, or splits at its first.
split_slash :
    (s : List ℕ) → NoSlash s ⊎ ((n : List ℕ) × (r : List ℕ) × NoSlash n × (s ≡ n ++ b'/' ∷ r))
split_slash [] = inl tt
split_slash (c ∷ s) = elim (Bool-cases (c == b'/')) [
  | inl e ↦ inr ([], s, tt, ground arith)
  | inr e ↦ elim (split_slash s) [
    | inl h ↦ inl (ground arith, h)
    | inr (n, r, h, p) ↦ inr (c ∷ n, r, (ground arith, h), ap (◌∷◌ c) p)
  ]
]

name_ok_iff : (n : List ℕ) → (name_ok n ≡ true) ↔ ((0 < length n) × (length n ≤ fs_maxfilename))
name_ok_iff n = ground arith

last_is_slash-append : (n r : List ℕ) → last_is_slash (n ++ b'/' ∷ r) ≡ last_is_slash (b'/' ∷ r)
last_is_slash-append [] r = refl
last_is_slash-append (c ∷ []) r = refl
last_is_slash-append (c ∷ d ∷ n) r = last_is_slash-append (d ∷ n) r

getline_cons : (c : ℕ) (s : List ℕ) → getline (c ∷ s) ≡ some (until_slash (c ∷ s))
unfolding getline
getline_cons c s = refl

-- One round of the loop, for a text whose first piece is known.
parse_loop_step :
    (fuel : ℕ) (s n r : List ℕ)
    → s ≢ []
    → until_slash s ≡ (n, r)
    → parse_loop (suc fuel) s ≡ push_name n (parse_loop fuel r)
unfolding parse_loop
parse_loop_step fuel [] n r h e = absurd (h refl)
parse_loop_step fuel (c ∷ s) n r h e = rw (getline_cons c s, e, parse_loop) refl

-- `push_name` succeeds on a good name only.
push_name_inv :
    (n : List ℕ) (m : Option (List (List ℕ))) (ns : List (List ℕ))
    → push_name n m ≡ some ns
    → (ms : List (List ℕ)) × (m ≡ some ms) × (ns ≡ n ∷ ms) × (name_ok n ≡ true)
push_name_inv n none ns e = cc
push_name_inv n (some ms) ns e = elim (Bool-cases (name_ok n)) [
  | inl ok ↦ (ms, refl, ground arith, ok)
  | inr bad ↦ absurd (ground arith)
]

-- What a successful loop has read.
record Read (s : List ℕ) (ns : List (List ℕ)) : Type 0 where
  text : s ≡ joined ns
  names : All IsName ns
  some_name : s ≢ [] → ns ≢ []

join-joined : (ns : List (List ℕ)) → ns ≢ [] → join ns ≡ b'/' ∷ joined ns
join-joined [] h = absurd (h refl)
join-joined (n ∷ ns) h = refl

parse_loop_inv :
    (fuel : ℕ) (s n r : List ℕ) (ns : List (List ℕ))
    → s ≢ []
    → until_slash s ≡ (n, r)
    → NoSlash n
    → parse_loop (suc fuel) s ≡ some ns
    → (ms : List (List ℕ)) × (parse_loop fuel r ≡ some ms) × (ns ≡ n ∷ ms) × IsName n
parse_loop_inv fuel s n r ns h e plain p =
    let (ms, q, k, ok) =
      push_name_inv n (parse_loop fuel r) ns (sym (parse_loop_step fuel s n r h e) ∙ p) in
    let (low, high) = (name_ok_iff n).0 ok in (ms, q, k, (plain, low, high))

parse_loop_nil : (fuel : ℕ) (ns : List (List ℕ)) → parse_loop fuel [] ≡ some ns → ns ≡ []
unfolding parse_loop getline
parse_loop_nil zero ns e = cc
parse_loop_nil (suc fuel) ns e = cc

parse_loop_sound :
    (fuel : ℕ) (s : List ℕ) (ns : List (List ℕ))
    → last_is_slash s ≡ false
    → parse_loop fuel s ≡ some ns
    → Read s ns
parse_loop_sound zero s ns h e = unfold parse_loop in cc
parse_loop_sound (suc fuel) [] ns h e =
    rw (parse_loop_nil (suc fuel) ns e)
      (record { text = refl; names = tt; some_name = λ k. absurd (k refl) })
parse_loop_sound (suc fuel) (c ∷ s) ns h e = elim (split_slash (c ∷ s)) [
  | inl whole ↦
      let (ms, q, k, ok) =
        parse_loop_inv fuel (c ∷ s) (c ∷ s) [] ns (λ x. cc) (until_slash-NoSlash (c ∷ s) whole)
          whole e in
      rw (k, parse_loop_nil fuel ms q)
        (record { text = sym (append-nil (c ∷ s)); names = (ok, tt); some_name = λ _ x. cc })
  | inr (n, [], plain, p) ↦ absurd (ground (arith, last_is_slash-append n [], ap last_is_slash p))
  | inr (n, d ∷ r, plain, p) ↦
      let split =
        subst (λ t. until_slash t ≡ (n, d ∷ r)) (sym p) (until_slash-append n (d ∷ r) plain) in
      let (ms, q, k, ok) = parse_loop_inv fuel (c ∷ s) n (d ∷ r) ns (λ x. cc) split plain e in
      let rest =
        parse_loop_sound fuel (d ∷ r) ms
          (ground (arith, last_is_slash-append n (d ∷ r), ap last_is_slash p)) q in
      rw k (record {
        text =
            p
            ∙ ap (◌++◌ n)
                (ap (◌∷◌ b'/') rest.text ∙ sym (join-joined ms (rest.some_name (λ x. cc))));
        names = (ok, rest.names);
        some_name = λ _ x. cc;
      })
]

append-ne-nil : (n r : List ℕ) → n ++ b'/' ∷ r ≢ []
append-ne-nil [] r e = cc
append-ne-nil (c ∷ n) r e = cc

parse_loop_complete :
    (fuel : ℕ) (ns : List (List ℕ))
    → length (joined ns) < fuel
    → All IsName ns
    → parse_loop fuel (joined ns) ≡ some ns
parse_loop_complete zero ns l h = absurd (omega arith)
parse_loop_complete (suc fuel) [] l h = unfold parse_loop getline in refl
parse_loop_complete (suc fuel) (n ∷ []) l h =
    last_name (parse_loop_complete fuel [] (omega (arith, length-append n [])) tt)
  where
    last_name : parse_loop fuel [] ≡ some [] → parse_loop (suc fuel) (n ++ []) ≡ some (n ∷ [])
    last_name ih = rw (append-nil n) (
        parse_loop_step fuel n n [] (λ e. ground arith) (until_slash-NoSlash n h.0.0)
        ∙ rw (ih, (name_ok_iff n).1 (h.0.1, h.0.2)) refl)
parse_loop_complete (suc fuel) (n ∷ m ∷ ns) l h = more (
    parse_loop_complete fuel (m ∷ ns) (omega (arith, length-append n (b'/' ∷ joined (m ∷ ns)))) h.1)
  where
    more :
        parse_loop fuel (joined (m ∷ ns)) ≡ some (m ∷ ns)
        → parse_loop (suc fuel) (n ++ b'/' ∷ joined (m ∷ ns)) ≡ some (n ∷ m ∷ ns)
    more ih =
        parse_loop_step fuel (n ++ b'/' ∷ joined (m ∷ ns)) n (joined (m ∷ ns)) (append-ne-nil n _)
          (until_slash-append n (joined (m ∷ ns)) h.0.0)
        ∙ rw (ih, (name_ok_iff n).1 (h.0.1, h.0.2)) refl

last_is_slash_cons : (c : ℕ) (t : List ℕ) → t ≢ [] → last_is_slash (c ∷ t) ≡ last_is_slash t
last_is_slash_cons c [] h = absurd (h refl)
last_is_slash_cons c (d ∷ t) h = refl

last_is_slash-NoSlash : (n : List ℕ) → NoSlash n → last_is_slash n ≡ false
last_is_slash-NoSlash [] h = refl
last_is_slash-NoSlash (c ∷ []) h = ground arith
last_is_slash-NoSlash (c ∷ d ∷ n) h = last_is_slash-NoSlash (d ∷ n) h.1

joined-ne-nil : (n : List ℕ) (ns : List (List ℕ)) → IsName n → joined (n ∷ ns) ≢ []
joined-ne-nil [] ns h e = absurd (omega arith)
joined-ne-nil (c ∷ n) ns h e = cc

last_is_slash-joined : (ns : List (List ℕ)) → All IsName ns → last_is_slash (joined ns) ≡ false
last_is_slash-joined [] h = refl
last_is_slash-joined (n ∷ []) h = rw (append-nil n) (last_is_slash-NoSlash n h.0.0)
last_is_slash-joined (n ∷ m ∷ ns) h =
    last_is_slash-append n (joined (m ∷ ns))
    ∙ (last_is_slash_cons b'/' (joined (m ∷ ns)) (joined-ne-nil m ns h.1.0)
        ∙ last_is_slash-joined (m ∷ ns) h.1)

some_text : (ns : List (List ℕ)) → All IsName ns → ns ≢ [] → joined ns ≢ []
some_text [] h k = absurd (k refl)
some_text (n ∷ ns) h k = joined-ne-nil n ns h.0

path_parser_slash :
    (s : List ℕ)
    → last_is_slash (b'/' ∷ s) ≡ false
    → path_parser (b'/' ∷ s) ≡ parse_loop (suc (length s)) s
unfolding path_parser until_slash
path_parser_slash s h = rw (h, path_parser) refl

path_parser_inv :
    (p : List ℕ) (ns : List (List ℕ))
    → path_parser p ≡ some ns
    → (s : List ℕ) × (p ≡ b'/' ∷ s) × (last_is_slash (b'/' ∷ s) ≡ false)
unfolding path_parser
path_parser_inv [] ns e = absurd (ground arith)
path_parser_inv (c ∷ s) ns e = elim (Bool-cases (c == b'/')) [
  | inl slash ↦ elim (Bool-cases (last_is_slash (c ∷ s))) [
    | inl last ↦ absurd (ground arith)
    | inr mid ↦ (s, ground arith, ground arith)
  ]
  | inr other ↦ absurd (ground arith)
]

-- `path_parser` accepts exactly the absolute paths: a nonempty sequence of names, each of 1 to 59
-- characters with no slash, each behind one slash and with none at the end; and it returns the names.
pub path_parser_iff :
    (p : List ℕ) (ns : List (List ℕ))
    → (path_parser p ≡ some ns) ↔ ((p ≡ join ns) × All IsName ns × (ns ≢ []))
path_parser_iff p ns = (sound, complete)
  where
    sound : path_parser p ≡ some ns → (p ≡ join ns) × All IsName ns × (ns ≢ [])
    sound e =
        let (s, q, mid) = path_parser_inv p ns e in
        let nonempty : s ≢ [] =
          λ k. absurd (ground (arith, ap (λ t. last_is_slash (b'/' ∷ t)) k)) in
        let r =
          parse_loop_sound (suc (length s)) s ns (sym (last_is_slash_cons b'/' s nonempty) ∙ mid)
            (sym (path_parser_slash s mid) ∙ (ap path_parser (sym q) ∙ e)) in
        let some_name = r.some_name nonempty in
        (q ∙ (ap (◌∷◌ b'/') r.text ∙ sym (join-joined ns some_name)), r.names, some_name)

    complete : (p ≡ join ns) × All IsName ns × (ns ≢ []) → path_parser p ≡ some ns
    complete (q, names, some_name) =
        let p_eq = q ∙ join-joined ns some_name in
        let mid =
          last_is_slash_cons b'/' (joined ns) (some_text ns names some_name)
          ∙ last_is_slash-joined ns names in
        ap path_parser p_eq
        ∙ (path_parser_slash (joined ns) mid
            ∙ parse_loop_complete (suc (length (joined ns))) ns (omega arith) names)
