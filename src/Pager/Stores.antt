-- ===== src/Pager/Stores.antt =====
-- What a process does to the memory between the calls: a store, as the MMU carries it out
-- (Project3/vm_pager.h), by the entry of the page.
use eecs.Base.{
  Memᴰ, ℕ, zero, suc, ◌≡◌, refl, sym, ap, ◌∙◌, inl, inr, true, false, List, [], ◌∷◌, Option, none,
  some, if◌then◌else◌, arith, Bool-cases, get_elem?,
}
use eecs.Pager.Files.{FileId}
use eecs.Pager.Memory.{Page, FileEvent, Memory, put}
use eecs.Pager.Processes.{Pager, vpn_of, offset_of}
use eecs.Pager.Tables.{put-ne}
use eecs.Pager.Sound.Evict.{AllSound}
use eecs.Pager.Pool.{Pool-steady}
use eecs.Pager.Valid.{Valid, Valid-memory}

abbrev pub with_byte : ℕ → ℕ → ℕ → Memory → Memory
with_byte p offset c s = record s { physmem = put s.physmem p (put (s.physmem p) offset c) }

-- The byte goes to the page if its entry allows it. Otherwise there is a fault, which is a call.
unfoldable pub store_byte : Option ℕ → ℕ → ℕ → Memory → Memory
store_byte none offset c s = s
store_byte (some v) offset c s =
    if (s.entry v).write_enable then with_byte (s.entry v).ppage offset c s else s

abbrev pub store_in : Option ℕ → ℕ → ℕ → Pager → Option Pager
store_in none addr c s = none
store_in (some t) addr c s = some (record s {
  memory = store_byte (get_elem? (s.store t).vps (vpn_of addr)) (offset_of addr) c s.memory;
})

unfoldable pub store : ℕ → ℕ → Pager → Option Pager
unfolding store_byte vpn_of offset_of
store addr c s = store_in s.cur_table addr c s

get_elem?-Memᴰ : (xs : List ℕ) (i v : ℕ) → get_elem? xs i ≡ some v → Memᴰ v xs
get_elem?-Memᴰ [] i v e = cc
get_elem?-Memᴰ (x ∷ xs) zero v e = Memᴰ.head cc
get_elem?-Memᴰ (x ∷ xs) (suc i) v e = Memᴰ.tail (get_elem?-Memᴰ xs i v e)

module _ (read : List FileEvent → FileId → Option Page) (n : ℕ) where
  -- The page is dirty, so neither a file nor the zero page has to have its data.
  with_byte-Sound :
      (v offset c : ℕ) (s : Memory)
      → AllSound read n s
      → Memᴰ v (s.peer_map (s.id v))
      → (s.entry v).write_enable ≡ true
      → AllSound read n (with_byte (s.entry v).ppage offset c s)
  with_byte-Sound v offset c s h mapped enabled = record {
    small = h.small;
    frames = h.frames;
    holds = h.holds;
    back = h.back;
    member = h.member;
    linked = h.linked;
    readable = h.readable;
    writable = h.writable;
    clean = λ q o k d.
        h.clean q o k d
        ∙ ap some (
            sym (
              put-ne s.physmem ((s.entry v).ppage) q (put (s.physmem ((s.entry v).ppage)) offset c)
                (λ e. written q e d)));
    accessible = h.accessible;
    stored = h.stored;
    zero_page = λ j.
        ap (λ f. f j)
          (put-ne s.physmem ((s.entry v).ppage) 0 (put (s.physmem ((s.entry v).ppage)) offset c)
            (λ e. written 0 e h.zero_clean))
        ∙ h.zero_page j;
    zero_swap = h.zero_swap;
    zero_clean = h.zero_clean;
  }
    where
      dirty : (s.physical_table ((s.entry v).ppage)).dirty ≡ true
      dirty =
          let w = h.writable (s.id v) v (λ z. z) mapped enabled in
          ap (λ x. (s.physical_table x).dirty) (h.linked (s.id v) v w.0 (λ z. z) mapped w.1) ∙ w.2

      written : (q : ℕ) → q ≡ (s.entry v).ppage → (s.physical_table q).dirty ≡ false → ⊥
      written q e d = absurd (ground (arith, ap (λ x. (s.physical_table x).dirty) e, dirty, d))

  module _ (s : Pager) (h : Valid read n s) (pid t : ℕ) (its : s.tables pid ≡ some t) where
    store_page-Valid :
        (v offset c : ℕ)
        → Memᴰ v (s.store t).vps
        → Valid read n (record s { memory = store_byte (some v) offset c s.memory })
    unfolding store_byte
    store_page-Valid v offset c m = elim (Bool-cases (s.memory.entry v).write_enable) [
      | inr off ↦ rw off h
      | inl on ↦
          let mapped = h.mapped pid t v its m in
          let after = with_byte (s.memory.entry v).ppage offset c s.memory in
          rw on (
            Valid-memory read n s after h
              (Pool-steady read n s.memory s.available_swap_blocks s.next_page h.pool v after mapped
                (with_byte-Sound v offset c s.memory h.pool.sound mapped on)
                (refl, refl, (λ i ne z. z), (λ i ne z. z)))
              refl refl)
    ]

    store_byte-Valid :
        (o : Option ℕ) (offset c : ℕ)
        → ((v : ℕ) → o ≡ some v → Memᴰ v (s.store t).vps)
        → Valid read n (record s { memory = store_byte o offset c s.memory })
    store_byte-Valid none offset c m = unfold store_byte in h
    store_byte-Valid (some v) offset c m = store_page-Valid v offset c (m v refl)

    -- A store of the current process has no undefined behaviour, and keeps the state valid.
    pub store-Valid :
        s.cur_table ≡ some t
        → (addr c : ℕ)
        → (after : Pager) × (store addr c s ≡ some after)
          × Valid read n after
          × (after.cur_table ≡ some t)
    unfolding store
    store-Valid now addr c = (
      record s {
        memory = store_byte (get_elem? (s.store t).vps (vpn_of addr)) (offset_of addr) c s.memory;
      },
      ap (λ o. store_in o addr c s) now,
      store_byte-Valid (get_elem? (s.store t).vps (vpn_of addr)) (offset_of addr) c
          (λ v e. get_elem?-Memᴰ (s.store t).vps (vpn_of addr) v e),
      now,
    )
