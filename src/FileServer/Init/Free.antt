-- ===== src/FileServer/Init/Free.antt =====
-- The search of the initial disk, and the blocks that the directory tree does not use.
use eecs.Base.{
  Memᴰ, ℕ, zero, suc, ◌+◌, ◌-◌, ◌≤◌, ◌<◌, ◌≡◌, refl, ap, subst, ◌∙◌, ◌↔◌, ◌⊎◌, inl, inr, List, [],
  ◌∷◌, ◌++◌, some, ◌==◌, arith, Bool-cases,
}
use mathlib.Core.List.Memᴰ
use eecs.FileServer.Params.{fs_disksize}
use eecs.FileServer.Layout.{decode_inode, decode_entries}
use eecs.FileServer.State.{Disk}
use eecs.FileServer.Directory.{used_blocks}
use eecs.FileServer.Init.{erase, count_up, visit_entries, search_blocks, init_free_blocks}
use eecs.FileServer.Init.Reach.{Uses, Finite, finite, UsedBy, children, EntriesUse}
use eecs.FileServer.Init.Visits.{Without, erase-Without, visit_entries-Visit}
use eecs.FileServer.Init.Levels.{Uses-Here, Here-Uses, child-Lists}

-- The state after the visit of directory block `b`.
abbrev visited : Disk → ℕ → List ℕ → List ℕ → List ℕ × List ℕ
visited disk b all queue = visit_entries disk (decode_entries (disk b)) (erase b all, queue)

visited-queue :
    (disk : Disk) (b : ℕ) (all queue : List ℕ)
    → (visited disk b all queue).1 ≡ queue ++ children disk b
visited-queue disk b all queue =
    (visit_entries-Visit disk (decode_entries (disk b)) (erase b all, queue)).queued

visited-Without :
    (disk : Disk) (b : ℕ) (all queue : List ℕ)
    → Without
        (λ x. (x ≡ b) ⊎ EntriesUse disk (decode_entries (disk b)) x)
        all
        (visited disk b all queue).0
visited-Without disk b all queue x =
    let one = erase-Without b all x in
    let rest = (visit_entries-Visit disk (decode_entries (disk b)) (erase b all, queue)).taken x in
    (
      λ m.
          let (k, n) = rest.0 m in
          let (k', n') = one.0 k in (k', λ u. elim u [ inl e ↦ n' e | inr q ↦ n q ]),
      λ m. rest.1 (one.1 (m.0, λ e. m.1 (inl e)), λ q. m.1 (inr q)),
    )

-- The queue after a visit covers what the rest of the tree uses.
module _ (disk : Disk) (b : ℕ) (queue : List ℕ) (x : ℕ) where
  UsedBy-visit :
      UsedBy disk (b ∷ queue) x
      → ((x ≡ b) ⊎ EntriesUse disk (decode_entries (disk b)) x)
        ⊎ UsedBy disk (queue ++ children disk b) x
  UsedBy-visit (c, Memᴰ.tail k, u) = inr (c, Memᴰ.append_left _ k, u)
  UsedBy-visit (c, Memᴰ.head e, u) = elim (Uses-Here disk b x (subst (λ k. Uses disk k x) e u)) [
    | inl q ↦ inl (inl q)
    | inr (inl q) ↦ inl (inr q)
    | inr (inr (d, k, v)) ↦ inr (d, Memᴰ.append_right queue k, v)
  ]

  visit-UsedBy :
      ((x ≡ b) ⊎ EntriesUse disk (decode_entries (disk b)) x)
        ⊎ UsedBy disk (queue ++ children disk b) x
      → UsedBy disk (b ∷ queue) x
  visit-UsedBy (inl (inl q)) = (b, Memᴰ.head refl, Here-Uses disk b x (inl q))
  visit-UsedBy (inl (inr q)) = (b, Memᴰ.head refl, Here-Uses disk b x (inr (inl q)))
  visit-UsedBy (inr (d, k, v)) = elim (Memᴰ.append_cases queue k) [
    | inl m ↦ (d, Memᴰ.tail m, v)
    | inr m ↦ (b, Memᴰ.head refl, Here-Uses disk b x (inr (inr (d, m, v))))
  ]

-- How many visits the search of a queue makes.
data Visits (disk : Disk) : List ℕ → ℕ → Type 0 where
  nothing : Visits disk [] 0
  more :
      {b : ℕ} {queue : List ℕ} {m n : ℕ}
      → Visits disk (children disk b) m
      → Visits disk queue n
      → Visits disk (b ∷ queue) (suc (m + n))

Visits-append :
    {disk : Disk} {xs ys : List ℕ} {m n : ℕ}
    → Visits disk xs m
    → Visits disk ys n
    → Visits disk (xs ++ ys) (m + n)
Visits-append {disk} {ys} {n} nothing w = subst (Visits disk ys) (omega arith) w
Visits-append {disk} {xs} {ys} {n} (more {b} {queue} {m = m1} {n = n1} v u) w =
    subst (Visits disk (b ∷ (queue ++ ys))) (omega arith) (more v (Visits-append u w))

-- A finite tree has some number of visits.
visits_of :
    (disk : Disk) (bs : List ℕ)
    → ((c : ℕ) → Memᴰ c bs → (m : ℕ) × Visits disk (children disk c) m)
    → (n : ℕ) × Visits disk bs n
visits_of disk [] h = (0, nothing)
visits_of disk (b ∷ bs) h =
    let (m, v) = h b (Memᴰ.head refl) in
    let (n, u) = visits_of disk bs (λ c k. h c (Memᴰ.tail k)) in (suc (m + n), more v u)

Finite-Visits : (disk : Disk) (b : ℕ) → Finite disk b → (m : ℕ) × Visits disk (children disk b) m
Finite-Visits disk b (finite h) = visits_of disk (children disk b) λ c k.
    Finite-Visits disk c
      (h (child-Lists disk b c k).0 c (child-Lists disk b c k).1 (child-Lists disk b c k).2)

-- With one round more than the visits, the search ends and leaves the blocks that are not used.
abbrev Searches : Disk → ℕ → List ℕ → List ℕ → Type 0
Searches disk fuel queue all =
    (left : List ℕ) × (search_blocks fuel disk queue all ≡ some left)
    × Without (UsedBy disk queue) all left

search_blocks-nil : (disk : Disk) (fuel : ℕ) (all : List ℕ) → Searches disk (suc fuel) [] all
unfolding search_blocks
search_blocks-nil disk fuel all = (all, refl, λ x. (λ m. (m, λ u. elim (u.1) [ ]), λ m. m.0))

search_blocks-next :
    (disk : Disk) (fuel b : ℕ) (queue all : List ℕ)
    → search_blocks (suc fuel) disk (b ∷ queue) all
      ≡ search_blocks fuel disk (queue ++ children disk b) (visited disk b all queue).0
unfolding search_blocks
search_blocks-next disk fuel b queue all =
    ap (λ q. search_blocks fuel disk q (visited disk b all queue).0)
      (visited-queue disk b all queue)

search_blocks-cons :
    (disk : Disk) (fuel b : ℕ) (queue all : List ℕ)
    → Searches disk fuel (queue ++ children disk b) (visited disk b all queue).0
    → Searches disk (suc fuel) (b ∷ queue) all
search_blocks-cons disk fuel b queue all (left, e, w) = (
  left,
  search_blocks-next disk fuel b queue all ∙ e,
  λ x.
      let here = visited-Without disk b all queue x in
      (
        λ m.
            let (k, n) = (w x).0 m in
            let (k', n') = here.0 k in
            (k', λ u. elim (UsedBy-visit disk b queue x u) [ inl q ↦ n' q | inr q ↦ n q ]),
        λ m. (w x).1 (
          here.1 (m.0, λ q. m.1 (visit-UsedBy disk b queue x (inl q))),
          λ q. m.1 (visit-UsedBy disk b queue x (inr q)),
        ),
      ),
)

search_blocks-Searches :
    (disk : Disk) (n : ℕ) (queue all : List ℕ) {k : ℕ}
    → Visits disk queue k
    → k ≤ n
    → Searches disk (suc n) queue all
search_blocks-Searches disk zero [] all v h = search_blocks-nil disk 0 all
search_blocks-Searches disk zero (b ∷ queue) all (more v u) h = absurd (omega (arith, h))
search_blocks-Searches disk (suc n) [] all v h = search_blocks-nil disk (suc n) all
search_blocks-Searches disk (suc n) (b ∷ queue) all (more v u) h =
    search_blocks-cons disk (suc n) b queue all (
      search_blocks-Searches disk n (queue ++ children disk b) (visited disk b all queue).0
        (Visits-append u v) (omega (arith, h)))

count_up-range : (n b x : ℕ) → Memᴰ x (count_up n b) ↔ ((b ≤ x) × (x < b + n))
unfolding count_up
count_up-range zero b x = (λ m. elim m [ ], λ h. absurd (omega (arith, h)))
count_up-range (suc n) b x =
    let rest = count_up-range n (suc b) x in
    (
      λ m. elim m [ Memᴰ.head e ↦ omega (arith, e) | Memᴰ.tail k ↦ omega (arith, rest.0 k) ],
      λ h. elim (Bool-cases (x == b)) [
        | inl same ↦ Memᴰ.head (ground (arith, same))
        | inr apart ↦ Memᴰ.tail (rest.1 (ground (arith, apart)))
      ],
    )

-- On a disk whose directories form a finite tree, the search of the initial disk ends, and the free
-- blocks are exactly those of the blocks 1 to 4095 that no directory block, inode or file of the tree
-- uses.
pub init_free_blocks-Free :
    (disk : Disk)
    → ((b : ℕ) → Memᴰ b (used_blocks (decode_inode (disk 0))) → Finite disk b)
    → (fuel : ℕ) × (free_blocks : List ℕ) × (init_free_blocks fuel disk ≡ some free_blocks)
      × ((x : ℕ)
          → Memᴰ x free_blocks
            ↔ ((1 ≤ x) × (x < fs_disksize) × ¬ UsedBy disk (used_blocks (decode_inode (disk 0))) x))
init_free_blocks-Free disk h =
    let root = used_blocks (decode_inode (disk 0)) in
    let (n, v) = visits_of disk root (λ c k. Finite-Visits disk c (h c k)) in
    let (left, e, w) =
      search_blocks-Searches disk n root (count_up (fs_disksize - 1) 1) v (omega arith) in
    (
      suc n,
      left,
      (unfold init_free_blocks in e),
      λ x.
          let range = count_up-range (fs_disksize - 1) 1 x in
          (
            λ m. let (k, u) = (w x).0 m in ((range.0 k).0, omega (arith, range.0 k), u),
            λ m. (w x).1 (range.1 (omega (arith, m.0, m.1)), m.2),
          ),
    )
