-- ===== src/Pager/Sound/Marks.antt =====
-- The entries and the bits that a fault sets.
use eecs.Base.{
  Memᴰ, ℕ, ◌≤◌, ◌≡◌, ◌≢◌, refl, sym, ap, subst, ◌∙◌, ◌⊎◌, inl, inr, true, false, List, Option, some,
  arith,
}
use eecs.Pager.Files.{FileId, FileId-cases}
use eecs.Pager.Memory.{Page, FileEvent, PhysicalPage, Entry, Memory, put}
use eecs.Pager.Faults.{mark_written, let_write, mark_used, set_peer}
use eecs.Pager.Frames.{count}
use eecs.Pager.Tables.{put_self, put-ne, put-same, ℕ-cases, as_peer, set_peer-in, set_peer-out}
use eecs.Pager.Sound.{Accessible}
use eecs.Pager.Sound.Evict.{AllSound}
use eecs.Pager.Sound.Install.{Pending}

module _ (read : List FileEvent → FileId → Option Page) (n v p : ℕ) (s : Memory)
    (h : Pending read n v p s) where
  -- Bits of `p` and the entry of `v` change.
  module _ (table : ℕ → PhysicalPage) (e : Entry)
      (ids : (q : ℕ) → (table q).id ≡ (s.physical_table q).id)
      (uses : (q : ℕ) → (table q).referenced ≡ (s.physical_table q).referenced)
      (dirts : (q : ℕ) → (s.physical_table q).dirty ≡ true → (table q).dirty ≡ true)
      (others : (q : ℕ) → q ≢ p → (table q).dirty ≡ (s.physical_table q).dirty)
      (zero_clean : (table 0).dirty ≡ false) (same : e.ppage ≡ (s.entry v).ppage) where
    entry-other :
        (i : FileId) (w : ℕ)
        → ¬ (i ≡ s.id v)
        → Memᴰ w (s.peer_map i)
        → put s.entry v e w ≡ s.entry w
    entry-other i w o m = put-ne s.entry v w e (λ k. o (sym (h.sound.member i w m) ∙ ap s.id k))

    marked_writable :
        (i : FileId)
        → ((q : ℕ) × (s.peer_in_phys i ≡ some q)
            × ((s.physical_table q).dirty ≡ true)
            × ((s.physical_table q).referenced ≡ true))
        → (q : ℕ) × (s.peer_in_phys i ≡ some q)
          × ((table q).dirty ≡ true)
          × ((table q).referenced ≡ true)
    marked_writable i (q, k, d, u) = (q, k, dirts q d, uses q ∙ u)

    marked_readable :
        (i : FileId)
        → ((q : ℕ) × (s.peer_in_phys i ≡ some q)
            × ((q ≡ 0) ⊎ ((s.physical_table q).referenced ≡ true)))
        → (q : ℕ) × (s.peer_in_phys i ≡ some q) × ((q ≡ 0) ⊎ ((table q).referenced ≡ true))
    marked_readable i (q, k, r) = (q, k, elim r [ inl z ↦ inl z | inr u ↦ inr (uses q ∙ u) ])

    marked-Pending :
        Pending read n v p (record s { physical_table = table; entry = put s.entry v e })
    marked-Pending = record {
      sound = record {
        small = h.sound.small;
        frames = h.sound.frames;
        holds = λ q k. ap s.peer_in_phys (ids q) ∙ h.sound.holds q k;
        back =
            λ i q k. elim (h.sound.back i q k) [ inl z ↦ inl z | inr b ↦ inr (b.0, ids q ∙ b.1) ];
        member = h.sound.member;
        linked =
            λ i w q o m k. ap (λ x. x.ppage) (entry-other i w o m) ∙ h.sound.linked i w q o m k;
        readable = λ i w o m k.
            marked_readable i
              (h.sound.readable i w o m (sym (ap (λ x. x.read_enable) (entry-other i w o m)) ∙ k));
        writable = λ i w o m k.
            marked_writable i
              (h.sound.writable i w o m (sym (ap (λ x. x.write_enable) (entry-other i w o m)) ∙ k));
        clean = λ q o k d. ap (read s.log) (ids q) ∙ h.sound.clean q o k (sym (others q o) ∙ d);
        accessible = λ q k. subst (Accessible read s.log) (sym (ids q)) (h.sound.accessible q k);
        stored = h.sound.stored;
        zero_page = h.sound.zero_page;
        zero_swap = h.sound.zero_swap;
        zero_clean = zero_clean;
      };
      resident = h.resident;
      entry_there = ap (λ x. x.ppage) (put_self s.entry v e) ∙ same ∙ h.entry_there;
      mapped = h.mapped;
    }

  pub let_write-Pending : Pending read n v p (let_write v s)
  unfolding let_write
  let_write-Pending =
      marked-Pending s.physical_table (record (s.entry v) { write_enable = true }) (λ q. refl)
        (λ q. refl) (λ q d. d) (λ q o. refl) h.sound.zero_clean refl

  abbrev dirtied : PhysicalPage
  dirtied = record (s.physical_table ((s.entry v).ppage)) { dirty = true }

  dirtied-keeps :
      (q : ℕ)
      → (s.physical_table q).dirty ≡ true
      → (q ≡ (s.entry v).ppage) ⊎ (q ≢ (s.entry v).ppage)
      → (put s.physical_table ((s.entry v).ppage) dirtied q).dirty ≡ true
  dirtied-keeps q d (inl k) =
      ap (λ x. (put s.physical_table ((s.entry v).ppage) dirtied x).dirty) k
      ∙ ap (λ x. x.dirty) (put_self s.physical_table ((s.entry v).ppage) dirtied)
  dirtied-keeps q d (inr k) =
      ap (λ x. x.dirty) (put-ne s.physical_table ((s.entry v).ppage) q dirtied k) ∙ d

  pub mark_written-Pending : p ≢ 0 → Pending read n v p (mark_written v s)
  unfolding mark_written
  mark_written-Pending ne =
      marked-Pending (put s.physical_table ((s.entry v).ppage) dirtied)
        (record (s.entry v) { write_enable = true })
        (λ q. put-same (λ x. x.id) s.physical_table ((s.entry v).ppage) q dirtied refl)
        (λ q. put-same (λ x. x.referenced) s.physical_table ((s.entry v).ppage) q dirtied refl)
        (λ q d. dirtied-keeps q d (ℕ-cases q ((s.entry v).ppage)))
        (λ q o.
          ap (λ x. x.dirty)
            (put-ne s.physical_table ((s.entry v).ppage) q dirtied (λ k. o (k ∙ h.entry_there))))
        (ap (λ x. x.dirty)
            (put-ne s.physical_table ((s.entry v).ppage) 0 dirtied
              (λ k. ne (sym (k ∙ h.entry_there))))
          ∙ h.sound.zero_clean)
        refl

  pub mark_written-dirty : ((mark_written v s).physical_table p).dirty ≡ true
  unfolding mark_written
  mark_written-dirty =
      ap (λ x. (put s.physical_table ((s.entry v).ppage) dirtied x).dirty) (sym h.entry_there)
      ∙ ap (λ x. x.dirty) (put_self s.physical_table ((s.entry v).ppage) dirtied)

  -- The entries after the fault.
  module _ (written : (s.entry v).write_enable ≡ true → (s.physical_table p).dirty ≡ true)
      (saved : ((s.physical_table p).dirty ≡ true)
        ⊎ ((p ≡ 0) ⊎ (read s.log (s.id v) ≡ some (s.physmem p)))) where
    abbrev used : PhysicalPage
    used = record (s.physical_table ((s.entry v).ppage)) { referenced = true }

    abbrev table' : ℕ → PhysicalPage
    table' = put s.physical_table ((s.entry v).ppage) used

    abbrev opened : ℕ → Entry
    opened = put s.entry v (record (s.entry v) { read_enable = true })

    abbrev entries' : ℕ → Entry
    entries' = set_peer (s.peer_map (s.id v)) v opened

    opened-own : opened v ≡ record (s.entry v) { read_enable = true }
    opened-own = put_self s.entry v _

    ids : (q : ℕ) → (table' q).id ≡ (s.physical_table q).id
    ids q = put-same (λ x. x.id) s.physical_table ((s.entry v).ppage) q used refl

    dirts : (q : ℕ) → (table' q).dirty ≡ (s.physical_table q).dirty
    dirts q = put-same (λ x. x.dirty) s.physical_table ((s.entry v).ppage) q used refl

    uses : (q : ℕ) → (s.physical_table q).referenced ≡ true → (table' q).referenced ≡ true
    uses q e = elim (ℕ-cases q ((s.entry v).ppage)) [
      | inl k ↦
          ap (λ x. (table' x).referenced) k
          ∙ ap (λ x. x.referenced) (put_self s.physical_table ((s.entry v).ppage) used)
      | inr k ↦ ap (λ x. x.referenced) (put-ne s.physical_table ((s.entry v).ppage) q used k) ∙ e
    ]

    used-own : (table' p).referenced ≡ true
    used-own =
        ap (λ x. (table' x).referenced) (sym h.entry_there)
        ∙ ap (λ x. x.referenced) (put_self s.physical_table ((s.entry v).ppage) used)

    -- The entry of a peer.
    peer-entry :
        (i : FileId) (w : ℕ)
        → i ≡ s.id v
        → Memᴰ w (s.peer_map i)
        → entries' w ≡ record (s.entry v) { read_enable = true }
    peer-entry i w e m =
        set_peer-in (s.peer_map (s.id v)) v w opened (ap (λ x. x.read_enable) opened-own)
          (inl (subst (λ x. Memᴰ w (s.peer_map x)) e m))
        ∙ ap as_peer opened-own

    other-entry : (i : FileId) (w : ℕ) → i ≢ s.id v → Memᴰ w (s.peer_map i) → entries' w ≡ s.entry w
    other-entry i w ne m =
        set_peer-out (s.peer_map (s.id v)) v w opened
          (λ m'. ne (sym (h.sound.member i w m) ∙ h.sound.member (s.id v) w m'))
        ∙ put-ne s.entry v w _ (λ k. ne (sym (h.sound.member i w m) ∙ ap s.id k))

    resident_at : (i : FileId) → i ≡ s.id v → s.peer_in_phys i ≡ some p
    resident_at i e = ap s.peer_in_phys e ∙ h.resident

    mark_used-linked :
        (i : FileId) (w q : ℕ)
        → Memᴰ w (s.peer_map i)
        → s.peer_in_phys i ≡ some q
        → (entries' w).ppage ≡ q
    mark_used-linked i w q m e = elim (FileId-cases i (s.id v)) [
      | inl same ↦
          let k : Path (Option ℕ) (some p) (some q) = sym (resident_at i same) ∙ e in
          let k' : p ≡ q = cc in ap (λ x. x.ppage) (peer-entry i w same m) ∙ h.entry_there ∙ k'
      | inr ne ↦ ap (λ x. x.ppage) (other-entry i w ne m) ∙ h.sound.linked i w q ne m e
    ]

    mark_used-readable :
        (i : FileId) (w : ℕ)
        → Memᴰ w (s.peer_map i)
        → (entries' w).read_enable ≡ true
        → (q : ℕ) × (s.peer_in_phys i ≡ some q) × ((q ≡ 0) ⊎ ((table' q).referenced ≡ true))
    mark_used-readable i w m e = elim (FileId-cases i (s.id v)) [
      | inl same ↦ (p, resident_at i same, inr used-own)
      | inr ne ↦
          let r =
            h.sound.readable i w ne m (sym (ap (λ x. x.read_enable) (other-entry i w ne m)) ∙ e) in
          (r.0, r.1, elim r.2 [ inl z ↦ inl z | inr u ↦ inr (uses r.0 u) ])
    ]

    mark_used-writable :
        (i : FileId) (w : ℕ)
        → Memᴰ w (s.peer_map i)
        → (entries' w).write_enable ≡ true
        → (q : ℕ) × (s.peer_in_phys i ≡ some q)
          × ((table' q).dirty ≡ true)
          × ((table' q).referenced ≡ true)
    mark_used-writable i w m e = elim (FileId-cases i (s.id v)) [
      | inl same ↦
          let k = written (sym (ap (λ x. x.write_enable) (peer-entry i w same m)) ∙ e) in
          (p, resident_at i same, dirts p ∙ k, used-own)
      | inr ne ↦
          let r =
            h.sound.writable i w ne m (sym (ap (λ x. x.write_enable) (other-entry i w ne m)) ∙ e) in
          (r.0, r.1, dirts r.0 ∙ r.2, uses r.0 r.3)
    ]

    own_id : 1 ≤ count p s.clock_queue → (s.physical_table p).id ≡ s.id v
    own_id k = elim (h.sound.back (s.id v) p h.resident) [
      | inl z ↦ absurd (omega (arith, z, (h.sound.frames p).1 (omega (arith, k))))
      | inr b ↦ b.1
    ]

    mark_used-clean :
        (q : ℕ)
        → 1 ≤ count q s.clock_queue
        → (table' q).dirty ≡ false
        → read s.log ((s.physical_table q).id) ≡ some (s.physmem q)
    mark_used-clean q k d = elim (ℕ-cases q p) [
      | inl same ↦ subst clean_at (sym same) clean-own k (sym (dirts q) ∙ d)
      | inr ne ↦ h.sound.clean q ne k (sym (dirts q) ∙ d)
    ]
      where
        clean_at : ℕ → Type 0
        clean_at q =
            1 ≤ count q s.clock_queue
            → (s.physical_table q).dirty ≡ false
            → read s.log ((s.physical_table q).id) ≡ some (s.physmem q)

        clean-own : clean_at p
        clean-own k d = elim saved [
          | inl dirty ↦ cc
          | inr (inl z) ↦ absurd (omega (arith, z, (h.sound.frames p).1 (omega (arith, k))))
          | inr (inr e) ↦ ap (read s.log) (own_id k) ∙ e
        ]

    pub mark_used-Sound : AllSound read n (mark_used v s)
    unfolding mark_used
    mark_used-Sound = record {
      small = h.sound.small;
      frames = h.sound.frames;
      holds = λ q k. ap s.peer_in_phys (ids q) ∙ h.sound.holds q k;
      back = λ i q k. elim (h.sound.back i q k) [ inl z ↦ inl z | inr b ↦ inr (b.0, ids q ∙ b.1) ];
      member = h.sound.member;
      linked = λ i w q o m k. mark_used-linked i w q m k;
      readable = λ i w o m k. mark_used-readable i w m k;
      writable = λ i w o m k. mark_used-writable i w m k;
      clean = λ q o k d. ap (read s.log) (ids q) ∙ mark_used-clean q k d;
      accessible = λ q k. subst (Accessible read s.log) (sym (ids q)) (h.sound.accessible q k);
      stored = h.sound.stored;
      zero_page = h.sound.zero_page;
      zero_swap = h.sound.zero_swap;
      zero_clean = dirts 0 ∙ h.sound.zero_clean;
    }

    -- The entry of the virtual page itself.
    pub mark_used-entry : (mark_used v s).entry v ≡ record (s.entry v) { read_enable = true }
    unfolding mark_used
    mark_used-entry = peer-entry (s.id v) v refl h.mapped
