-- ===== src/Threads/Programs.antt =====
-- Programs on the thread library, as the test programs of Project2 are: each thread is a list of what it
-- does, with a counter `g` that all threads share. The timer's interrupts are off.
pub mod Sequences
use eecs.Base.{
  ℕ, zero, suc, ◌+◌, ◌==◌, List, [], ◌∷◌, ◌++◌, Option, none, some, true, if◌then◌else◌,
}
use eecs.Threads.State.{Library}
use eecs.Threads.Calls.{cpu, finish}
use eecs.Threads.Runs.{Call, perform, creates}

-- A call of the library; a new thread, with the number of its function; `g++`; a line of output,
-- without or with `g`.
pub data Action : Type 0 where
  calls : Call → Action
  spawns : ℕ → Action
  counts says shows : Action

-- The rest of each thread's program is by the number of its TCB. `output` has the lines, the newest
-- last: the thread, and `g` if the line has it.
pub record Machine : Type 0 where
  pub library : Library
  pub program : ℕ → List Action
  pub g : ℕ
  pub output : List (ℕ × Option ℕ)

abbrev pub with_program : (ℕ → List Action) → ℕ → List Action → ℕ → List Action
with_program program t actions u = if u == t then actions else program u

-- What thread `t` does next.
unfoldable pub act : (ℕ → List Action) → ℕ → List Action → Machine → Machine
act functions t [] s = record s { library = finish t s.library }
act functions t (calls k ∷ rest) s = record s {
  library = perform k t s.library;
  program = with_program s.program t rest;
}
act functions t (spawns function ∷ rest) s = record s {
  library = perform (creates true) t s.library;
  program = with_program (with_program s.program t rest) s.library.next_tcb (functions function);
}
act functions t (counts ∷ rest) s = record s {
  program = with_program s.program t rest;
  g = suc s.g;
}
act functions t (says ∷ rest) s = record s {
  program = with_program s.program t rest;
  output = s.output ++ (t, none) ∷ [];
}
act functions t (shows ∷ rest) s = record s {
  program = with_program s.program t rest;
  output = s.output ++ (t, some s.g) ∷ [];
}

abbrev pub act_of : (ℕ → List Action) → Option ℕ → Machine → Machine
act_of functions none s = s
act_of functions (some t) s = act functions t (s.program t) s

-- So many actions, or until the CPU is suspended.
unfoldable pub acts : (ℕ → List Action) → ℕ → Machine → Machine
unfolding act
acts functions zero s = s
acts functions (suc fuel) s = acts functions fuel (act_of functions s.library.running_thread s)

-- `cpu::boot` with the first thread's function.
unfoldable pub boot_program : List Action → Machine
boot_program parent = record {
  library = (cpu true).1;
  program = λ t. if t == 0 then parent else [];
  g = 0;
  output = [];
}
