-- ===== src/Threads/Examples.antt =====
-- A run of two threads, and the theorems about the library at it: thread 0 creates thread 1, takes
-- mutex 7 and yields; thread 1 asks for the mutex and waits; thread 0 joins thread 1, and the program
-- is in a deadlock.
use eecs.Base.{ℕ, ◌<◌, ◌≡◌, ◌≢◌, refl, true, false, [], ◌∷◌, none, some, arith, take, drop}
use eecs.Threads.State.{
  ready_queue, mutex_queue, cv_queue, join_queue, Library, resume, switch, swap_helper,
}
use eecs.Threads.Calls.{
  returns, cpu, check_ownership, lock, unlock, signal, broadcast, yield, join, create_thread,
}
use eecs.Threads.Places.{count}
use eecs.Threads.Runs.{locks, yields, joins, creates, perform, Reach, boot, call}
use eecs.Threads.Located.{Located, Once, Reach-mutex, Reach-Located, Reach-join, Reach-cpu}
use eecs.Threads.Waking.{Moved, Granted, unlock-Moved, waking-Moved}
use eecs.Threads.Exclusion.{Held, perform-Held}

abbrev booted : Library
booted = (cpu true).1

abbrev created : Library
created = perform (creates true) 0 booted

abbrev locked : Library
locked = perform (locks 7) 0 created

abbrev yielded : Library
yielded = perform yields 0 locked

abbrev waiting : Library
waiting = perform (locks 7) 1 yielded

abbrev joining : Library
joining = perform (joins 1) 0 waiting

-- What computes when a run is tested.
runs : Library → Library
unfolding cpu create_thread lock yield join resume switch swap_helper
runs s = s

runs_0 :
    (booted.running_thread ≡ some 0)
    × (created.running_thread ≡ some 0)
    × (locked.running_thread ≡ some 0)
unfolding runs
runs_0 = (refl, refl, refl)

runs_1 :
    (yielded.running_thread ≡ some 1)
    × (waiting.running_thread ≡ some 0)
    × (joining.running_thread ≡ none)
unfolding runs
runs_1 = (refl, refl, refl)

-- The waiting thread is in the queue of the mutex, and the joining one in that of thread 1.
queues_test : (joining.queues (mutex_queue 7) ≡ 1 ∷ []) × (joining.queues (join_queue 1) ≡ 0 ∷ [])
unfolding runs
queues_test = (refl, refl)

-- Thread 0 owns the mutex that thread 1 waits for.
owns : check_ownership 7 0 waiting ≡ true
unfolding runs check_ownership
owns = refl

unlock-Moved_example :
    ((unlock 7 0 waiting).0 ≡ returns)
    × Moved
        (mutex_queue 7)
        (take 1 (waiting.queues (mutex_queue 7)))
        (drop 1 (waiting.queues (mutex_queue 7)))
        waiting
        (unlock 7 0 waiting).1
    × Granted (waiting.queues (mutex_queue 7)) 7 (unlock 7 0 waiting).1
unlock-Moved_example = unlock-Moved 7 0 waiting owns

waking-Moved_example :
    Moved
      (cv_queue 3)
      (take 1 (waiting.queues (cv_queue 3)))
      (drop 1 (waiting.queues (cv_queue 3)))
      waiting
      (signal 3 waiting)
    × Moved (cv_queue 3) (waiting.queues (cv_queue 3)) [] waiting (broadcast 3 waiting)
waking-Moved_example = waking-Moved 3 waiting

waiting-Reach : Reach waiting
waiting-Reach =
    call (locks 7) 1
      (call yields 0 (call (locks 7) 0 (call (creates true) 0 boot runs_0.0 tt) runs_0.1 tt)
        runs_0.2 tt)
      runs_1.0 tt

two_created : 1 < waiting.next_tcb
unfolding runs
two_created = omega arith

joining-Reach : Reach joining
joining-Reach = call (joins 1) 0 waiting-Reach runs_1.1 two_created

mutex_free : waiting.status 3 ≡ false
unfolding runs
mutex_free = refl

Reach-mutex_example : waiting.queues (mutex_queue 3) ≡ []
Reach-mutex_example = Reach-mutex waiting 3 waiting-Reach mutex_free

not_destroyed : waiting.expired 1 ≡ false
unfolding runs
not_destroyed = refl

Reach-Located_example : Located waiting 1 × Once waiting 1
Reach-Located_example = Reach-Located waiting 1 waiting-Reach two_created not_destroyed

zero_joins : count 0 (joining.queues (join_queue 1)) ≢ 0
unfolding runs count
zero_joins e = absurd (omega (arith, e))

Reach-join_example : (1 < joining.next_tcb) × (joining.expired 1 ≡ false)
Reach-join_example = Reach-join joining 0 1 joining-Reach zero_joins

Reach-cpu_example :
    (joining.enabled ≡ true) × (joining.running_thread ≡ none → joining.queues ready_queue ≡ [])
Reach-cpu_example = Reach-cpu joining joining-Reach

yielded-Held : Held 7 0 yielded
unfolding runs
yielded-Held = record { taken = refl; owner = refl }

zero_one : ¬ (Path ℕ 0 1)
zero_one e = absurd (omega (arith, e))

perform-Held_example : Held 7 0 (perform (locks 7) 1 yielded)
perform-Held_example = perform-Held 7 0 1 (locks 7) yielded zero_one yielded-Held
