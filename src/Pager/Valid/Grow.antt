-- ===== src/Pager/Valid/Grow.antt =====
-- A new virtual page in the current table.
use eecs.Base.{
  Memᴰ, ℕ, suc, ◌+◌, ◌≤◌, ◌<◌, ◌≡◌, ◌≢◌, refl, sym, ap, subst, ◌∙◌, ◌⊎◌, inl, inr, List, [], ◌∷◌,
  ◌++◌, length, length-append, Option, some, arith, if◌then◌else◌,
}
use mathlib.Core.List.Memᴰ
use eecs.Pager.Files.{FileId, is_swap_backed, assign, assign_self, assign_ne, FileId-cases}
use eecs.Pager.Memory.{Page, FileEvent, Memory, put}
use eecs.Pager.Processes.{PageTable, Pager}
use eecs.Pager.Tables.{put_self, put-ne, ℕ-cases}
use eecs.Pager.Pool.{Pool}
use eecs.Pager.Valid.{Valid, Once, swaps}

swaps-append : (id : ℕ → FileId) (xs ys : List ℕ) → swaps id (xs ++ ys) ≡ swaps id xs + swaps id ys
unfolding swaps
swaps-append id [] ys = omega arith
swaps-append id (x ∷ xs) ys = ground (arith, swaps-append id xs ys)

swaps-put :
    (id : ℕ → FileId) (v : ℕ) (i : FileId) (xs : List ℕ)
    → ((w : ℕ) → Memᴰ w xs → w ≢ v)
    → swaps (put id v i) xs ≡ swaps id xs
unfolding swaps
swaps-put id v i [] new = refl
swaps-put id v i (x ∷ xs) new =
    let ih = swaps-put id v i xs (λ w m. new w (Memᴰ.tail m)) in
    ap (λ j. if is_swap_backed j then suc (swaps (put id v i) xs) else swaps (put id v i) xs)
      (put-ne id v x i (new x (Memᴰ.head refl)))
    ∙ ap (λ k. if is_swap_backed (id x) then suc k else k) ih

Once-append : (xs : List ℕ) (v : ℕ) → Once xs → ((w : ℕ) → Memᴰ w xs → w ≢ v) → Once (xs ++ v ∷ [])
Once-append [] v once new = (λ m. Memᴰ.not-nil m, tt)
Once-append (x ∷ xs) v once new = (
  λ m. elim (Memᴰ.append_cases xs m) [
    | inl old ↦ once.0 old
    | inr l ↦ new x (Memᴰ.head refl) (Memᴰ.eq_of_singleton l)
  ],
  Once-append xs v once.1 (λ w k. new w (Memᴰ.tail k)),
)

old_peer :
    (peers : FileId → List ℕ) (i j : FileId) (v w : ℕ)
    → Memᴰ w (peers j)
    → Memᴰ w (assign peers i (peers i ++ v ∷ []) j)
old_peer peers i j v w m = elim (FileId-cases i j) [
  | inl same ↦
      subst (λ j. Memᴰ w (peers j) → Memᴰ w (assign peers i (peers i ++ v ∷ []) j)) same
        (λ k. subst (Memᴰ w) (sym (assign_self peers i _)) (Memᴰ.append_left (v ∷ []) k)) m
  | inr ne ↦ subst (Memᴰ w) (sym (assign_ne peers i j _ ne)) m
]

module _ (read : List FileEvent → FileId → Option Page) (n : ℕ) (s : Pager) (h : Valid read n s)
    (pid t : ℕ) (its : s.tables pid ≡ some t) (room : (s.store t).cnt < 256) (i : FileId)
    (memory : Memory) (free : List ℕ) (num : ℕ) (store : ℕ → PageTable) (occupied : ℕ)
    (ids : memory.id ≡ put s.memory.id s.next_page i)
    (peers : memory.peer_map ≡ assign s.memory.peer_map i (s.memory.peer_map i ++ s.next_page ∷ []))
    (pool : Pool read n memory free (suc s.next_page))
    (own : store t ≡ record {
      vps = (s.store t).vps ++ s.next_page ∷ [];
      cnt = suc (s.store t).cnt;
      occupied_swap_blocks = occupied;
    })
    (other : (q : ℕ) → q ≢ t → store q ≡ s.store q)
    (occupied_more : occupied
      ≡ (s.store t).occupied_swap_blocks + (if is_swap_backed i then 1 else 0))
    (reserve : num ≤ length free) where
  abbrev v : ℕ
  v = s.next_page

  new : (q t' w : ℕ) → s.tables q ≡ some t' → Memᴰ w (s.store t').vps → w ≢ v
  new q t' w e m k = omega (arith, k, h.pool.new_page (s.memory.id w) w (h.mapped q t' w e m))

  same_id : (w : ℕ) → w ≢ v → memory.id w ≡ s.memory.id w
  same_id w ne = ap (λ f. f w) ids ∙ put-ne s.memory.id v w i ne

  mapped_old :
      (w : ℕ)
      → w ≢ v
      → Memᴰ w (s.memory.peer_map (s.memory.id w))
      → Memᴰ w (memory.peer_map (memory.id w))
  mapped_old w ne m =
      subst (Memᴰ w) (sym (ap memory.peer_map (same_id w ne) ∙ ap (λ f. f (s.memory.id w)) peers))
        (old_peer s.memory.peer_map i (s.memory.id w) v w m)

  mapped_new : Memᴰ v (memory.peer_map (memory.id v))
  mapped_new =
      subst (Memᴰ v)
        (sym (
          ap memory.peer_map (ap (λ f. f v) ids ∙ put_self s.memory.id v i)
          ∙ ap (λ f. f i) peers
          ∙ assign_self s.memory.peer_map i _))
        (Memᴰ.append_right (s.memory.peer_map i) (Memᴰ.head refl))

  -- A page of a table is the new one, of the current table, or was there.
  which : (t' w : ℕ) → Memᴰ w (store t').vps → ((w ≡ v) × (t' ≡ t)) ⊎ Memᴰ w (s.store t').vps
  which t' w m = elim (ℕ-cases t' t) [
    | inl same ↦
        elim (Memᴰ.append_cases (s.store t).vps
          (subst (λ x. Memᴰ w x.vps) (ap store same ∙ own) m)) [
            | inl old ↦ inr (subst (λ x. Memᴰ w (s.store x).vps) (sym same) old)
            | inr l ↦ inl (Memᴰ.eq_of_singleton l, same)
          ]
    | inr ne ↦ inr (subst (λ x. Memᴰ w x.vps) (other t' ne) m)
  ]

  old_swaps :
      (q t' : ℕ)
      → s.tables q ≡ some t'
      → swaps memory.id (s.store t').vps ≡ swaps s.memory.id (s.store t').vps
  old_swaps q t' e =
      ap (λ f. swaps f (s.store t').vps) ids
      ∙ swaps-put s.memory.id v i (s.store t').vps (λ w m. new q t' w e m)

  own_swaps :
      swaps memory.id ((s.store t).vps ++ v ∷ [])
      ≡ (s.store t).occupied_swap_blocks + (if is_swap_backed i then 1 else 0)
  unfolding swaps
  own_swaps =
      let k : is_swap_backed (memory.id v) ≡ is_swap_backed i =
        ap is_swap_backed (ap (λ f. f v) ids ∙ put_self s.memory.id v i) in
      let l : swaps memory.id (v ∷ []) ≡ (if is_swap_backed i then 1 else 0) =
        ap (λ b. if b then 1 else 0) k in
      omega (
        arith,
        swaps-append memory.id (s.store t).vps (v ∷ []),
        old_swaps pid t its,
        h.occupied pid t its,
        l,
      )

  -- A property of the tables.
  at_tables :
      (P : PageTable → Type 0) (q t' : ℕ) → P (store t) → ((t' ≢ t) → P (s.store t')) → P (store t')
  at_tables P q t' mine others = elim (ℕ-cases t' t) [
    | inl same ↦ subst (λ x. P (store x)) (sym same) mine
    | inr ne ↦ subst P (sym (other t' ne)) (others ne)
  ]

  pub grown-Valid : Valid read n (record s {
    memory = memory;
    available_swap_blocks = free;
    num_swap_blocks = num;
    store = store;
    next_page = suc s.next_page;
  })
  grown-Valid = record {
    num = h.num;
    pool = pool;
    current = h.current;
    new_table = h.new_table;
    one_owner = h.one_owner;
    mapped = λ q t' w e m. elim (which t' w m) [
      | inl k ↦ subst (λ x. Memᴰ x (memory.peer_map (memory.id x))) (sym k.0) mapped_new
      | inr old ↦ mapped_old w (new q t' w e old) (h.mapped q t' w e old)
    ];
    counted = λ q t' e.
        at_tables (λ x. x.cnt ≡ length x.vps) q t'
          (subst (λ x. x.cnt ≡ length x.vps) (sym own)
            (omega (arith, h.counted pid t its, length-append (s.store t).vps (v ∷ []))))
          (λ ne. h.counted q t' e);
    fits = λ q t' e.
        at_tables (λ x. x.cnt ≤ 256) q t' (subst (λ x. x.cnt ≤ 256) (sym own) (omega (arith, room)))
          (λ ne. h.fits q t' e);
    once = λ q t' e.
        at_tables (λ x. Once x.vps) q t'
          (subst (λ x. Once x.vps) (sym own)
            (Once-append (s.store t).vps v (h.once pid t its) (λ w m. new pid t w its m)))
          (λ ne. h.once q t' e);
    apart = λ q q' t1 t2 w e e' ne m m'. elim (which t1 w m) [
      | inl k ↦ elim (which t2 w m') [
        | inl k' ↦ ne (k.1 ∙ sym k'.1)
        | inr old' ↦ new q' t2 w e' old' k.0
      ]
      | inr old ↦ elim (which t2 w m') [
        | inl k' ↦ new q t1 w e old k'.0
        | inr old' ↦ h.apart q q' t1 t2 w e e' ne old old'
      ]
    ];
    reserve = reserve;
    occupied = λ q t' e.
        at_tables (λ x. x.occupied_swap_blocks ≡ swaps memory.id x.vps) q t'
          (subst (λ x. x.occupied_swap_blocks ≡ swaps memory.id x.vps) (sym own)
            (occupied_more ∙ sym own_swaps))
          (λ ne. h.occupied q t' e ∙ sym (old_swaps q t' e));
  }
