-- ===== src/Pager/Tables.antt =====
-- The tables of the pager after an update, and the entries after those of disable_all and set_peer.
use eecs.Base.{
  Memᴰ, ℕ, ◌≡◌, ◌≢◌, refl, sym, ap, subst, ◌∙◌, ◌⊎◌, inl, inr, Bool, true, false, List, [], ◌∷◌,
  ◌==◌, arith,
}
use mathlib.Core.List.Memᴰ
use eecs.Pager.Memory.{Entry, put, disable_all}
use eecs.Pager.Faults.{set_peer}

pub put_self {ℓ} : {A : Type ℓ} (f : ℕ → A) (k : ℕ) (v : A) → put f k v k ≡ v
put_self f k v = rw (same k) refl
  where
    same : (k : ℕ) → (k == k) ≡ true
    same k = ground arith

pub put-ne {ℓ} : {A : Type ℓ} (f : ℕ → A) (k j : ℕ) (v : A) → j ≢ k → put f k v j ≡ f j
put-ne f k j v ne = rw (other k j ne) refl
  where
    other : (k j : ℕ) → j ≢ k → (j == k) ≡ false
    other k j ne = ground arith

pub ℕ-cases : (i j : ℕ) → (i ≡ j) ⊎ (i ≢ j)
ℕ-cases i j = ground arith

-- A field that an update does not change, at every page.
pub put-same {ℓ κ} :
    {A : Type ℓ} {B : Type κ} (g : A → B) (f : ℕ → A) (k j : ℕ) (v : A)
    → g v ≡ g (f k)
    → g (put f k v j) ≡ g (f j)
put-same g f k j v e = elim (ℕ-cases j k) [
  | inl same ↦ subst (λ x. g (put f k v x) ≡ g (f x)) (sym same) (ap g (put_self f k v) ∙ e)
  | inr other ↦ ap g (put-ne f k j v other)
]

pub disable_all-ppage :
    (vs : List ℕ) (e : ℕ → Entry) (v : ℕ) → (disable_all vs e v).ppage ≡ (e v).ppage
unfolding disable_all
disable_all-ppage [] e v = refl
disable_all-ppage (w ∷ vs) e v =
    let e' = put e w (record (e w) { read_enable = false; write_enable = false }) in
    disable_all-ppage vs e' v ∙ put-same (λ x. x.ppage) e w v _ refl

abbrev pub disabled : Entry → Entry
disabled e = record e { read_enable = false; write_enable = false }

-- Of a right `g`, to read or to write.
module _ (g : Entry → Bool) (off : (e : Entry) → g (disabled e) ≡ false) where
  put-off : (e : ℕ → Entry) (w v : ℕ) → v ≡ w → ¬ (g (put e w (disabled (e w)) v) ≡ true)
  put-off e w v same h =
      let k : g (put e w (disabled (e w)) w) ≡ true =
        subst (λ x. g (put e w (disabled (e w)) x) ≡ true) same h in
      let k' : g (put e w (disabled (e w)) w) ≡ false = ap g (put_self e w _) ∙ off (e w) in cc

  -- What an entry allows was allowed before.
  pub disable_all-before :
      (vs : List ℕ) (e : ℕ → Entry) (v : ℕ) → g (disable_all vs e v) ≡ true → g (e v) ≡ true
  unfolding disable_all
  disable_all-before [] e v h = h
  disable_all-before (w ∷ vs) e v h =
      let h' = disable_all-before vs (put e w (disabled (e w))) v h in
      elim (ℕ-cases v w) [
        | inl same ↦ absurd (put-off e w v same h')
        | inr other ↦ sym (ap g (put-ne e w v _ other)) ∙ h'
      ]

  pub disable_all-in :
      (vs : List ℕ) (e : ℕ → Entry) (v : ℕ) → Memᴰ v vs → ¬ (g (disable_all vs e v) ≡ true)
  unfolding disable_all
  disable_all-in [] e v m h = absurd (Memᴰ.not-nil m)
  disable_all-in (w ∷ vs) e v (Memᴰ.head same) h =
      put-off e w v same (disable_all-before vs (put e w (disabled (e w))) v h)
  disable_all-in (w ∷ vs) e v (Memᴰ.tail m) h = disable_all-in vs (put e w (disabled (e w))) v m h

-- What set_peer writes to the entry of a peer.
abbrev pub as_peer : Entry → Entry
as_peer e = record { ppage = e.ppage; read_enable = true; write_enable = e.write_enable }

-- The entries of the peers are those of the page, which is readable.
pub set_peer-in :
    (vs : List ℕ) (c v : ℕ) (e : ℕ → Entry)
    → (e c).read_enable ≡ true
    → Memᴰ v vs ⊎ (e v ≡ as_peer (e c))
    → set_peer vs c e v ≡ as_peer (e c)
unfolding set_peer
set_peer-in [] c v e r (inl m) = absurd (Memᴰ.not-nil m)
set_peer-in [] c v e r (inr d) = d
set_peer-in (w ∷ vs) c v e r m =
    set_peer-in vs c v e' (ap (λ x. x.read_enable) keep ∙ r) (next m) ∙ ap as_peer keep
  where
    e' : ℕ → Entry
    e' = put e w (as_peer (e c))

    own : as_peer (e c) ≡ e c
    own =
        ap (λ b. record { ppage = (e c).ppage; read_enable = b; write_enable = (e c).write_enable })
          (sym r)

    keep : e' c ≡ e c
    keep = elim (ℕ-cases c w) [
      | inl same ↦ subst (λ x. put e w (as_peer (e c)) x ≡ e c) (sym same) (put_self e w _ ∙ own)
      | inr other ↦ put-ne e w c _ other
    ]

    at_w : v ≡ w → e' v ≡ as_peer (e' c)
    at_w same =
        subst (λ x. put e w (as_peer (e c)) x ≡ as_peer (e c)) (sym same) (put_self e w _)
        ∙ sym (ap as_peer keep)

    next : Memᴰ v (w ∷ vs) ⊎ (e v ≡ as_peer (e c)) → Memᴰ v vs ⊎ (e' v ≡ as_peer (e' c))
    next (inl (Memᴰ.head same)) = inr (at_w same)
    next (inl (Memᴰ.tail m')) = inl m'
    next (inr d) = elim (ℕ-cases v w) [
      | inl same ↦ inr (at_w same)
      | inr other ↦ inr (put-ne e w v _ other ∙ d ∙ sym (ap as_peer keep))
    ]

pub set_peer-out : (vs : List ℕ) (c v : ℕ) (e : ℕ → Entry) → ¬ Memᴰ v vs → set_peer vs c e v ≡ e v
unfolding set_peer
set_peer-out [] c v e out = refl
set_peer-out (w ∷ vs) c v e out =
    set_peer-out vs c v _ (λ m. out (Memᴰ.tail m)) ∙ put-ne e w v _ (λ same. out (Memᴰ.head same))
