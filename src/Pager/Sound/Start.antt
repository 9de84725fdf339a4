-- ===== src/Pager/Sound/Start.antt =====
-- The memory after vm_init.
use eecs.Base.{ℕ, ◌^◌, ◌≤◌, refl, Option, arith, List}
use mathlib.Core.List.Memᴰ
use eecs.Pager.Files.{FileId}
use eecs.Pager.Memory.{Page, FileEvent, Entry}
use eecs.Pager.Processes.{globals, vm_init}
use eecs.Pager.Frames.{count, Frames-start}
use eecs.Pager.Sound.Evict.{AllSound}

module _ (read : List FileEvent → FileId → Option Page) (n blocks : ℕ) (physmem : ℕ → Page)
    (entry : ℕ → Entry) where
  pub vm_init-Sound : n ≤ 2 ^ 16 → AllSound read n (vm_init n blocks (globals physmem entry)).memory
  unfolding vm_init count
  vm_init-Sound small = record {
    small = small;
    frames = Frames-start n;
    holds = λ p k. absurd (omega arith);
    back = λ i p e. cc;
    member = λ i v m. absurd (Memᴰ.not-nil m);
    linked = λ i v p o m e. cc;
    readable = λ i v o m e. absurd (Memᴰ.not-nil m);
    writable = λ i v o m e. absurd (Memᴰ.not-nil m);
    clean = λ p o k d. absurd (omega arith);
    accessible = λ p k. absurd (omega arith);
    stored = λ i v m b e. absurd (Memᴰ.not-nil m);
    zero_page = λ j. refl;
    zero_swap = λ i e. cc;
    zero_clean = refl;
  }
