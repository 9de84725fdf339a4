-- ===== src/Pager/Examples.antt =====
-- The clock at a memory of two pages, of which the first is referenced.
use eecs.Base.{◌≡◌, ◌↔◌, Memᴰ, ℕ, zero, suc, refl, inl, true, false, none, some, [], ◌∷◌, arith}
use mathlib.Core.List.Memᴰ
use eecs.Pager.Files.{swap_backed, file_backed, assign, same_file, same_file_iff}
use eecs.Pager.Memory.{PhysicalPage, Memory, get_free_physical_page}
use eecs.Pager.Clock.{Freed, get_free_physical_page-Freed}

-- Page 1 has been used, page 2 is dirty.
abbrev table : ℕ → PhysicalPage
table (suc zero) = record { dirty = false; referenced = true; id = swap_backed 0 }
table _ = record { dirty = true; referenced = false; id = swap_backed 1 }

abbrev two_pages : Memory
two_pages = record {
  physical_table = table;
  available_physical_pages = [];
  clock_queue = 1 ∷ 2 ∷ [];
  peer_in_phys = assign (assign (λ i. none) (swap_backed 0) (some 1)) (swap_backed 1) (some 2);
  peer_map = λ id. [];
  entry = λ v. record { ppage = 0; read_enable = true; write_enable = false };
  id = swap_backed;
  physmem = λ p j. p;
  log = [];
}

two_not_one : ¬ Memᴰ {A = ℕ} 2 (1 ∷ [])
two_not_one m = absurd (omega (arith, Memᴰ.eq_of_singleton m))

get_free_physical_page-Freed_example :
    Freed two_pages 2 (1 ∷ []) (get_free_physical_page 3 two_pages)
get_free_physical_page-Freed_example =
    get_free_physical_page-Freed (1 ∷ []) [] 2 two_pages refl refl (refl, Memᴰ.not-nil, tt)
      two_not_one (inl refl)

same_file_iff_example :
    (same_file (file_backed (97 ∷ 0 ∷ []) 1) (swap_backed 1) ≡ true)
    ↔ (file_backed (97 ∷ 0 ∷ []) 1 ≡ swap_backed 1)
same_file_iff_example = same_file_iff (file_backed (97 ∷ 0 ∷ []) 1) (swap_backed 1)
