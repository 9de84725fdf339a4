-- ===== src/Pager/Valid/Map.antt =====
-- The pages that vm_map makes.
use eecs.Base.{
  ℕ, suc, ◌+◌, ◌-◌, ◌≤◌, ◌<◌, ◌≡◌, ◌≢◌, refl, sym, ap, subst, ◌∙◌, inl, inr, true, false, List, [],
  ◌∷◌, ◌++◌, length, Option, some, arith, ◌==◌, if◌then◌else◌, Bool-cases,
}
use eecs.Pager.Files.{FileId, swap_backed, file_backed, assign}
use eecs.Pager.Memory.{Page, FileEvent, put}
use eecs.Pager.Memory.{u32}
use eecs.Pager.Processes.{
  PageTable, Pager, page_address, add_page, take_block, map_swap, file_entry, map_file,
}
use eecs.Pager.Tables.{put_self, put-ne}
use eecs.Pager.Sound.Mapping.{with_page}
use eecs.Pager.Pool.{Pool, Pool-map_file, Pool-map_swap}
use eecs.Pager.Valid.{Valid, swaps}
use eecs.Pager.Valid.Grow.{grown-Valid}

swaps-length : (id : ℕ → FileId) (xs : List ℕ) → swaps id xs ≤ length xs
unfolding swaps
swaps-length id [] = omega arith
swaps-length id (x ∷ xs) = ground (arith, swaps-length id xs)

module _ (read : List FileEvent → FileId → Option Page) (n : ℕ) (s : Pager) (h : Valid read n s)
    (pid t : ℕ) (its : s.tables pid ≡ some t) (room : (s.store t).cnt < 256) where
  abbrev Mapped : Option (Pager × ℕ) → Type 0
  Mapped r = (after : Pager) × (addr : ℕ) × (r ≡ some (after, addr)) × Valid read n after

  abbrev table' : ℕ → PageTable
  table' occupied = record {
    vps = (s.store t).vps ++ s.next_page ∷ [];
    cnt = suc (s.store t).cnt;
    occupied_swap_blocks = occupied;
  }

  occupied-bound : u32 ((s.store t).occupied_swap_blocks + 1) ≡ (s.store t).occupied_swap_blocks + 1
  occupied-bound = omega (
    arith,
    h.occupied pid t its,
    swaps-length s.memory.id (s.store t).vps,
    h.counted pid t its,
    room,
  )

  abbrev with_occupied : ℕ → PageTable → PageTable
  with_occupied k x = record x { occupied_swap_blocks = k }

  take_block-Mapped :
      (blocks : List ℕ)
      → s.available_swap_blocks ≡ blocks
      → s.num_swap_blocks ≢ 0
      → Mapped (take_block t blocks s)
  unfolding add_page
  take_block-Mapped [] e ne = absurd (omega (arith, ne, h.reserve, ap length e))
  take_block-Mapped (block ∷ blocks) e ne =
      let i = swap_backed block in
      let first = table' (s.store t).occupied_swap_blocks in
      let store1 = put s.store t first in
      let occ = u32 ((store1 t).occupied_swap_blocks + 1) in
      let same : store1 t ≡ first = put_self s.store t first in
      let occ_eq : occ ≡ (s.store t).occupied_swap_blocks + 1 =
        ap (λ x. u32 (x.occupied_swap_blocks + 1)) same ∙ occupied-bound in
      (
        record s {
          memory =
              with_page s.next_page i
                (record { ppage = 0; read_enable = true; write_enable = false })
                (record s.memory { peer_in_phys = assign s.memory.peer_in_phys i (some 0) });
          available_swap_blocks = blocks;
          num_swap_blocks = s.num_swap_blocks - 1;
          store = put store1 t (record (store1 t) { occupied_swap_blocks = occ });
          next_page = suc s.next_page;
        },
        page_address (s.store t).cnt,
        refl,
        grown-Valid read n s h pid t its room i
            (with_page s.next_page i
              (record { ppage = 0; read_enable = true; write_enable = false })
              (record s.memory { peer_in_phys = assign s.memory.peer_in_phys i (some 0) }))
            blocks (s.num_swap_blocks - 1)
            (put store1 t (record (store1 t) { occupied_swap_blocks = occ })) occ refl refl
            (Pool-map_swap read n s.memory blocks s.next_page block
              (subst (λ b. Pool read n s.memory b s.next_page) e h.pool))
            (put_self store1 t _ ∙ ap (with_occupied occ) same)
            (λ q ne. put-ne store1 t q _ ne ∙ put-ne s.store t q first ne) occ_eq
            (omega (arith, h.reserve, ap length e)),
      )

  pub map_swap-Mapped : Mapped (map_swap t s)
  unfolding map_swap
  map_swap-Mapped = elim (Bool-cases (s.num_swap_blocks == 0)) [
    | inl none_left ↦ (
      s,
      0,
      ap (λ b. if b then some (s, 0) else take_block t s.available_swap_blocks s) none_left,
      h,
    )
    | inr some_left ↦
        let r = take_block-Mapped s.available_swap_blocks refl (ground (arith, some_left)) in
        (
          r.0,
          r.1,
          ap (λ b. if b then some (s, 0) else take_block t s.available_swap_blocks s) some_left
              ∙ r.2,
          r.3,
        )
  ]

  pub map_file-Valid : (filename : List ℕ) (block : ℕ) → Valid read n (map_file t filename block s)
  unfolding map_file add_page
  map_file-Valid filename block =
      let i = file_backed filename block in
      let first = table' (s.store t).occupied_swap_blocks in
      let entry = file_entry (s.memory.peer_in_phys i) s.memory.physical_table s.num_memory_pages in
      grown-Valid read n s h pid t its room i (with_page s.next_page i entry s.memory)
        s.available_swap_blocks s.num_swap_blocks (put s.store t first)
        (s.store t).occupied_swap_blocks refl refl
        (subst
          (λ k.
            Pool read n
              (with_page s.next_page i
                (file_entry (s.memory.peer_in_phys i) s.memory.physical_table k) s.memory)
              s.available_swap_blocks (suc s.next_page))
          (sym h.num)
          (Pool-map_file read n s.memory s.available_swap_blocks s.next_page h.pool filename block))
        (put_self s.store t first) (λ q ne. put-ne s.store t q first ne) (omega arith) h.reserve
