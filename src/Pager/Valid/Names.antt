-- ===== src/Pager/Valid/Names.antt =====
-- The loop of vm_map on the name of a file, and vm_map.
use eecs.Base.{
  ℕ, zero, suc, ◌+◌, ◌-◌, ◌*◌, ◌/◌, ◌%◌, ◌^◌, ◌≤◌, ◌<◌, ◌≡◌, refl, sym, ap, ◌∙◌, ◌⊎◌, inl, inr,
  Bool, true, false, List, [], ◌∷◌, ◌++◌, length, Option, none, some, arith, ◌==◌, leb, not,
  if◌then◌else◌, Bool-cases, get_elem?,
}
use eecs.Pager.Memory.{Page, FileEvent}
use eecs.Pager.Files.{FileId}
use eecs.Pager.Faults.{Status, success, failure, fmap}
use eecs.Pager.Sound.{Files}
use eecs.Pager.Valid.{Valid}
use eecs.Pager.Valid.Fault.{SameTables, vm_fault-Valid, get_elem?-Mem}
use eecs.Pager.Valid.Map.{map_swap-Mapped, map_file-Valid}
use eecs.Pager.Processes.{
  take_block, map_swap, add_page, Pager, vpn_of, read_name, readable, byte_at, vm_fault, name_fuel,
  page_address, map_named, map_in, map_current, vm_map, map_file, max_page_num,
}

-- How far an address is from the start of the arena, as far as its page number tells.
abbrev pub arena_offset : ℕ → ℕ
arena_offset addr = (addr + 2 ^ 64 - 25769803776) % 2 ^ 64 % 2 ^ 48

vpn_of-arena_offset : (addr : ℕ) → vpn_of addr ≡ arena_offset addr / 65536
unfolding vpn_of
vpn_of-arena_offset addr = omega arith

arena_offset-suc :
    (addr : ℕ) → arena_offset addr < 16777216 → arena_offset (suc addr) ≡ suc (arena_offset addr)
arena_offset-suc addr k = omega (arith, k)

module _ (read : List FileEvent → FileId → Option Page) (fuel t addr : ℕ) (name : List ℕ)
    (s : Pager) where
  read_name-out :
      leb (s.store t).cnt (vpn_of addr) ≡ true
      → read_name read (suc fuel) t addr name s ≡ some (s, none)
  unfolding read_name
  read_name-out out = rw (out, read_name) refl

  read_name-failed :
      (v : ℕ) (s' : Pager)
      → leb (s.store t).cnt (vpn_of addr) ≡ false
      → get_elem? (s.store t).vps (vpn_of addr) ≡ some v
      → readable read v addr s ≡ some (s', failure)
      → read_name read (suc fuel) t addr name s ≡ some (s', none)
  unfolding read_name
  read_name-failed v s' inside at_v ready =
      rw (inside, read_name) (rw (at_v, read_name) (rw (ready, read_name) refl))

  read_name-end :
      (v : ℕ) (s' : Pager)
      → leb (s.store t).cnt (vpn_of addr) ≡ false
      → get_elem? (s.store t).vps (vpn_of addr) ≡ some v
      → readable read v addr s ≡ some (s', success)
      → (byte_at v addr s'.memory == 0) ≡ true
      → read_name read (suc fuel) t addr name s
        ≡ some (s', some (name ++ byte_at v addr s'.memory ∷ []))
  unfolding read_name
  read_name-end v s' inside at_v ready last =
      rw (inside, read_name)
        (rw (at_v, read_name) (rw (ready, read_name) (rw (last, read_name) refl)))

  read_name-more :
      (v : ℕ) (s' : Pager)
      → leb (s.store t).cnt (vpn_of addr) ≡ false
      → get_elem? (s.store t).vps (vpn_of addr) ≡ some v
      → readable read v addr s ≡ some (s', success)
      → (byte_at v addr s'.memory == 0) ≡ false
      → read_name read (suc fuel) t addr name s
        ≡ read_name read fuel t (suc addr) (name ++ byte_at v addr s'.memory ∷ []) s'
  unfolding read_name
  read_name-more v s' inside at_v ready more =
      rw (inside, read_name)
        (rw (at_v, read_name) (rw (ready, read_name) (rw (more, read_name) refl)))

cur_of : Option (Pager × ℕ) → Option ℕ
cur_of none = none
cur_of (some r) = r.0.cur_table

take_block-cur_table :
    (t : ℕ) (blocks : List ℕ) (s after : Pager) (addr : ℕ)
    → take_block t blocks s ≡ some (after, addr)
    → after.cur_table ≡ s.cur_table
unfolding add_page
take_block-cur_table t [] s after addr e = cc
take_block-cur_table t (block ∷ blocks) s after addr e = unfold cur_of in sym (ap cur_of e)

map_swap-cur_table :
    (t : ℕ) (s after : Pager) (addr : ℕ)
    → map_swap t s ≡ some (after, addr)
    → after.cur_table ≡ s.cur_table
unfolding map_swap
map_swap-cur_table t s after addr = go (s.num_swap_blocks == 0)
  where
    go :
        (b : Bool)
        → (if b then some (s, 0) else take_block t s.available_swap_blocks s) ≡ some (after, addr)
        → after.cur_table ≡ s.cur_table
    go true e = unfold cur_of in sym (ap cur_of e)
    go false e = take_block-cur_table t s.available_swap_blocks s after addr e

module _ (read : List FileEvent → FileId → Option Page) (laws : Files read) (n : ℕ) (two : 2 ≤ n)
    (pid t : ℕ) where
  -- The process runs, with a number of pages that fits.
  abbrev Running : ℕ → Pager → Type 0
  Running cnt s =
      Valid read n s × (s.tables pid ≡ some t) × (s.cur_table ≡ some t) × ((s.store t).cnt ≡ cnt)

  Running-after :
      (cnt : ℕ) (s s' : Pager)
      → Running cnt s
      → Valid read n s'
      → SameTables read laws n two s s'
      → Running cnt s'
  Running-after cnt s s' r h same =
      (h, ap (λ f. f pid) same.1 ∙ r.1, same.2 ∙ r.2, ap (λ f. (f t).cnt) same.0 ∙ r.3)

  -- The page of a byte can be read, or there is a fault that fails.
  readable-Valid :
      (cnt v addr : ℕ) (s : Pager)
      → Running cnt s
      → (after : Pager) × (status : Status) × (readable read v addr s ≡ some (after, status))
        × Running cnt after
  unfolding readable
  readable-Valid cnt v addr s r = go (not (s.memory.entry v).read_enable)
    where
      go :
          (b : Bool)
          → (after : Pager) × (status : Status) × ((if b
                then vm_fault read addr false s
                else some (s, success))
              ≡ some (after, status))
            × Running cnt after
      go false = (s, success, refl, r)
      go true =
          let f = vm_fault-Valid read laws n two s r.0 pid t r.1 r.2 addr false in
          (f.0, f.1, f.2, Running-after cnt s f.0 r f.3 f.4)

  abbrev NameRead : ℕ → Option (Pager × Option (List ℕ)) → Type 0
  NameRead cnt result =
      (after : Pager) × (name : Option (List ℕ)) × (result ≡ some (after, name)) × Running cnt after

  cnt_fits : (cnt : ℕ) (s : Pager) → Running cnt s → cnt ≤ 256
  cnt_fits cnt s r = omega (arith, r.0.fits pid t r.1, r.3)

  -- A byte in the valid zone.
  module _ (fuel cnt addr : ℕ) (name : List ℕ) (s : Pager) (r : Running cnt s)
      (inside : leb (s.store t).cnt (vpn_of addr) ≡ false)
      (later : (name' : List ℕ) (s' : Pager)
        → Running cnt s'
        → NameRead cnt (read_name read fuel t (suc addr) name' s')) where
    abbrev Here : Type 0
    Here = NameRead cnt (read_name read (suc fuel) t addr name s)

    byte-Valid :
        (v : ℕ) (s' : Pager)
        → get_elem? (s.store t).vps (vpn_of addr) ≡ some v
        → readable read v addr s ≡ some (s', success)
        → Running cnt s'
        → Here
    byte-Valid v s' at_v ready r' = elim (Bool-cases (byte_at v addr s'.memory == 0)) [
      | inl last ↦ (
        s',
        some (name ++ byte_at v addr s'.memory ∷ []),
        read_name-end read fuel t addr name s v s' inside at_v ready last,
        r',
      )
      | inr more ↦
          let l = later (name ++ byte_at v addr s'.memory ∷ []) s' r' in
          (l.0, l.1, read_name-more read fuel t addr name s v s' inside at_v ready more ∙ l.2, l.3)
    ]

    page-Valid :
        (v : ℕ) (s' : Pager) (status : Status)
        → get_elem? (s.store t).vps (vpn_of addr) ≡ some v
        → readable read v addr s ≡ some (s', status)
        → Running cnt s'
        → Here
    page-Valid v s' success at_v ready r' = byte-Valid v s' at_v ready r'
    page-Valid v s' failure at_v ready r' =
        (s', none, read_name-failed read fuel t addr name s v s' inside at_v ready, r')

    inside-Valid : Here
    inside-Valid =
        let less : vpn_of addr < length (s.store t).vps =
          ground (arith, inside, r.0.counted pid t r.1) in
        let g = get_elem?-Mem (s.store t).vps (vpn_of addr) less in
        let f = readable-Valid cnt g.0 addr s r in page-Valid g.0 f.0 f.1 g.1 f.2 f.3

  read_name-Valid :
      (fuel cnt addr : ℕ) (name : List ℕ) (s : Pager)
      → Running cnt s
      → 1 ≤ fuel
      → cnt * 65536 < arena_offset addr + fuel
      → NameRead cnt (read_name read fuel t addr name s)
  read_name-Valid zero cnt addr name s r one k = absurd (omega (arith, one))
  read_name-Valid (suc fuel) cnt addr name s r one k =
      elim (Bool-cases (leb (s.store t).cnt (vpn_of addr))) [
        | inl out ↦ (s, none, read_name-out read fuel t addr name s out, r)
        | inr inside ↦
            let less : vpn_of addr < cnt = ground (arith, inside, r.3) in
            let near : arena_offset addr < cnt * 65536 =
              omega (arith, less, vpn_of-arena_offset addr) in
            let small : arena_offset addr < 16777216 = omega (arith, near, cnt_fits cnt s r) in
            inside-Valid fuel cnt addr name s r inside (λ name' s' r'.
              read_name-Valid fuel cnt (suc addr) name' s' r' (omega (arith, k, near))
                (omega (arith, k, arena_offset-suc addr small)))
      ]

  named-Valid :
      (s : Pager) (block : ℕ) (result : Option (Pager × Option (List ℕ)))
      → (s.store t).cnt < 256
      → NameRead (s.store t).cnt result
      → (after : Pager) × (addr : ℕ) × (fmap
            (map_named t block (page_address (s.store t).cnt))
            result
          ≡ some (after, addr))
        × Valid read n after
        × (after.cur_table ≡ some t)
  named-Valid s block result room (after, none, e, r) =
      (after, 0, ap (fmap (map_named t block (page_address (s.store t).cnt))) e, r.0, r.2)
  named-Valid s block result room (after, some name, e, r) = (
    map_file t name block after,
    page_address (s.store t).cnt,
    ap (fmap (map_named t block (page_address (s.store t).cnt))) e,
    map_file-Valid read n after r.0 pid t r.1 (omega (arith, r.3, room)) name block,
    unfold map_file add_page in r.2,
  )

  map_in-Valid :
      (s : Pager)
      → Valid read n s
      → s.tables pid ≡ some t
      → s.cur_table ≡ some t
      → (s.store t).cnt < 256
      → (filename : Option ℕ) (block : ℕ)
      → (after : Pager) × (addr : ℕ) × (map_in read t filename block s ≡ some (after, addr))
        × Valid read n after
        × (after.cur_table ≡ some t)
  unfolding name_fuel
  map_in-Valid s h its current room none block =
      let r = map_swap-Mapped read n s h pid t its room in
      (r.0, r.1, r.2, r.3, map_swap-cur_table t s r.0 r.1 r.2 ∙ current)
  map_in-Valid s h its current room (some filename) block =
      named-Valid s block (read_name read (name_fuel t s) t filename [] s) room (
        read_name-Valid (name_fuel t s) (s.store t).cnt filename [] s (h, its, current, refl)
          (fuel-bound (s.store t).cnt).0 (fuel-bound (s.store t).cnt).1)
    where
      fuel-bound :
          (cnt : ℕ)
          → (1 ≤ cnt * 65536 + 1) × (cnt * 65536 < arena_offset filename + (cnt * 65536 + 1))
      fuel-bound cnt = (omega arith, omega arith)

  mapped-Valid :
      (s : Pager)
      → Valid read n s
      → s.tables pid ≡ some t
      → s.cur_table ≡ some t
      → (filename : Option ℕ) (block : ℕ)
      → (leb max_page_num (s.store t).cnt ≡ true) ⊎ (leb max_page_num (s.store t).cnt ≡ false)
      → (after : Pager) × (addr : ℕ) × (map_current read (some t) filename block s
          ≡ some (after, addr))
        × Valid read n after
        × (after.cur_table ≡ some t)
  mapped-Valid s h its current filename block (inl full) =
      (s, 0, ap (λ b. if b then some (s, 0) else map_in read t filename block s) full, h, current)
  mapped-Valid s h its current filename block (inr room) =
      let small : (s.store t).cnt < 256 = ground (arith, room) in
      let r = map_in-Valid s h its current small filename block in
      (
        r.0,
        r.1,
        ap (λ b. if b then some (s, 0) else map_in read t filename block s) room ∙ r.2,
        r.3,
        r.4,
      )

  -- vm_map of the current process.
  pub vm_map-Valid :
      (s : Pager)
      → Valid read n s
      → (s.tables pid ≡ some t)
      → (s.cur_table ≡ some t)
      → (filename : Option ℕ) (block : ℕ)
      → (after : Pager) × (addr : ℕ) × (vm_map read filename block s ≡ some (after, addr))
        × Valid read n after
        × (after.cur_table ≡ some t)
  unfolding vm_map
  vm_map-Valid s h its current filename block =
      let r =
        mapped-Valid s h its current filename block
          (Bool-cases (leb max_page_num (s.store t).cnt)) in
      (r.0, r.1, ap (λ o. map_current read o filename block s) current ∙ r.2, r.3, r.4)
