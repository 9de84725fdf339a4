-- ===== src/Threads/Programs/Sequences.antt =====
-- The test programs Project2/test16.cpp, test17.cpp and test20.cpp, and what they print.
use eecs.Base.{ℕ, zero, suc, ◌≡◌, refl, List, [], ◌∷◌, ◌++◌, Option, none, some}
use eecs.Threads.State.{resume, switch, swap_helper}
use eecs.Threads.Calls.{
  cpu, lock, unlock, wait, signal, broadcast, yield, join, create_thread, finish,
}
use eecs.Threads.Runs.{locks, unlocks, waits, signals, broadcasts, yields}
use eecs.Threads.Programs.{
  Action, calls, spawns, counts, says, shows, Machine, act, acts, boot_program,
}

abbrev mutex1 : ℕ
mutex1 = 1

abbrev cv1 : ℕ
cv1 = 1

abbrev repeat : ℕ → List Action → List Action
repeat zero actions = []
repeat (suc n) actions = actions ++ repeat n actions

-- What a program prints, and who runs at the end.
abbrev result_of : Machine → List (ℕ × Option ℕ) × Option ℕ
result_of s = (s.output, s.library.running_thread)

abbrev loop_20 : List Action
loop_20 =
    calls (locks mutex1)
    ∷ counts
    ∷ says
    ∷ calls (signals cv1)
    ∷ counts
    ∷ says
    ∷ calls (waits cv1 mutex1)
    ∷ counts
    ∷ shows
    ∷ calls (signals cv1)
    ∷ counts
    ∷ shows
    ∷ calls (unlocks mutex1)
    ∷ []

abbrev parent_20 : List Action
parent_20 =
    calls (locks mutex1)
    ∷ says
    ∷ calls (unlocks mutex1)
    ∷ spawns 1
    ∷ spawns 1
    ∷ calls (locks mutex1)
    ∷ calls (waits cv1 mutex1)
    ∷ calls (unlocks mutex1)
    ∷ counts
    ∷ shows
    ∷ calls (signals cv1)
    ∷ loop_20

abbrev functions_20 : ℕ → List Action
functions_20 zero = parent_20
functions_20 (suc i) = loop_20

abbrev loop_17 : List Action
loop_17 =
    calls (locks mutex1)
    ∷ counts
    ∷ says
    ∷ counts
    ∷ says
    ∷ calls (waits cv1 mutex1)
    ∷ counts
    ∷ shows
    ∷ calls (signals cv1)
    ∷ counts
    ∷ shows
    ∷ calls (unlocks mutex1)
    ∷ []

abbrev parent_17 : List Action
parent_17 =
    calls (locks mutex1)
    ∷ says
    ∷ calls (unlocks mutex1)
    ∷ spawns 1
    ∷ spawns 1
    ∷ calls yields
    ∷ calls (signals cv1)
    ∷ calls (locks mutex1)
    ∷ calls (waits cv1 mutex1)
    ∷ calls (unlocks mutex1)
    ∷ counts
    ∷ shows
    ∷ calls (broadcasts cv1)
    ∷ loop_17

abbrev functions_17 : ℕ → List Action
functions_17 zero = parent_17
functions_17 (suc i) = loop_17

abbrev loop_16 : List Action
loop_16 =
    calls (locks mutex1)
    ∷ says
    ∷ (repeat 5 (shows ∷ calls (unlocks mutex1) ∷ calls yields ∷ calls (locks mutex1) ∷ counts ∷ [])
        ++ shows ∷ calls (unlocks mutex1) ∷ [])

abbrev loop1_16 : List Action
loop1_16 =
    counts
    ∷ calls (locks mutex1)
    ∷ shows
    ∷ calls yields
    ∷ counts
    ∷ shows
    ∷ calls (unlocks mutex1)
    ∷ []

abbrev loop2_16 : List Action
loop2_16 =
    counts
    ∷ calls (locks mutex1)
    ∷ shows
    ∷ calls (waits cv1 mutex1)
    ∷ counts
    ∷ shows
    ∷ calls (unlocks mutex1)
    ∷ []

abbrev loop3_16 : List Action
loop3_16 =
    counts
    ∷ calls (locks mutex1)
    ∷ shows
    ∷ calls (broadcasts cv1)
    ∷ counts
    ∷ shows
    ∷ calls yields
    ∷ counts
    ∷ shows
    ∷ calls (unlocks mutex1)
    ∷ []

abbrev parent_16 : List Action
parent_16 =
    calls (locks mutex1)
    ∷ says
    ∷ calls (unlocks mutex1)
    ∷ spawns 1
    ∷ spawns 2
    ∷ spawns 3
    ∷ calls yields
    ∷ calls yields
    ∷ calls yields
    ∷ loop_16

abbrev functions_16 : ℕ → List Action
functions_16 zero = parent_16
functions_16 (suc zero) = loop1_16
functions_16 (suc (suc zero)) = loop2_16
functions_16 (suc (suc (suc i))) = loop3_16

abbrev r20 : List (ℕ × Option ℕ) × Option ℕ
r20 = result_of (acts functions_20 60 (boot_program parent_20))

abbrev r17 : List (ℕ × Option ℕ) × Option ℕ
r17 = result_of (acts functions_17 60 (boot_program parent_17))

abbrev r16 : List (ℕ × Option ℕ) × Option ℕ
r16 = result_of (acts functions_16 90 (boot_program parent_16))

-- The lines of output, by thread; no thread runs at the end.
prints_20 : r20 ≡ (
  (0, none)
      ∷ (1, none)
      ∷ (1, none)
      ∷ (2, none)
      ∷ (2, none)
      ∷ (0, some 5)
      ∷ (0, none)
      ∷ (0, none)
      ∷ (1, some 8)
      ∷ (1, some 9)
      ∷ (2, some 10)
      ∷ (2, some 11)
      ∷ (0, some 12)
      ∷ (0, some 13)
      ∷ [],
  none,
)
unfolding acts act boot_program cpu lock unlock wait signal broadcast yield join create_thread
    finish resume switch swap_helper
prints_20 = refl

prints_17 : r17 ≡ (
  (0, none)
      ∷ (1, none)
      ∷ (1, none)
      ∷ (2, none)
      ∷ (2, none)
      ∷ (1, some 5)
      ∷ (1, some 6)
      ∷ (2, some 7)
      ∷ (2, some 8)
      ∷ (0, some 9)
      ∷ (0, none)
      ∷ (0, none)
      ∷ [],
  none,
)
unfolding acts act boot_program cpu lock unlock wait signal broadcast yield join create_thread
    finish resume switch swap_helper
prints_17 = refl

prints_16 : r16 ≡ (
  (0, none)
      ∷ (1, some 1)
      ∷ (1, some 4)
      ∷ (2, some 4)
      ∷ (3, some 4)
      ∷ (3, some 5)
      ∷ (3, some 6)
      ∷ (0, none)
      ∷ (0, some 6)
      ∷ (2, some 7)
      ∷ (0, some 8)
      ∷ (0, some 9)
      ∷ (0, some 10)
      ∷ (0, some 11)
      ∷ (0, some 12)
      ∷ [],
  none,
)
unfolding acts act boot_program cpu lock unlock wait signal broadcast yield join create_thread
    finish resume switch swap_helper
prints_16 = refl
