-- ===== src/Threads/Calls.antt =====
-- The calls of the running thread `t`: mutex.cpp, cv.cpp and thread_lib.cpp of Project2.
use eecs.Base.{
  ℕ, suc, Bool, true, false, not, ◌&&◌, List, [], ◌∷◌, Option, none, some, ◌==◌, if◌then◌else◌,
}
use eecs.Threads.State.{
  Queue, ready_queue, mutex_queue, cv_queue, join_queue, starting, enabling, reacquiring, Library,
  put, put_queue, push, interrupt_disable, interrupt_enable, take_lock, suspend, switch,
  swap_helper,
}

-- A call returns, or throws.
pub data Reply : Type 0 where
  returns : Reply
  throws : Reply

unfoldable pub lock : ℕ → ℕ → Library → Library
unfolding swap_helper
lock m t s =
    let s = interrupt_disable s in
    if s.status m
    then swap_helper t enabling (push (mutex_queue m) t s)
    else interrupt_enable (take_lock m t s)

abbrev pub is_owner : Option ℕ → ℕ → Library → Bool
is_owner none t s = false
is_owner (some o) t s = not (s.expired o) && o == t

unfoldable pub check_ownership : ℕ → ℕ → Library → Bool
check_ownership m t s = s.status m && is_owner (s.occupy_thread m) t s

-- The mutex goes to the first waiting thread, which becomes ready, or is free.
abbrev pub hand_over : List ℕ → ℕ → Library → Library
hand_over [] m s = record s { status = put s.status m false }
hand_over (w ∷ rest) m s =
    push ready_queue w
      (record (take_lock m w s) { queues = put_queue s.queues (mutex_queue m) rest })

unfoldable pub unlock : ℕ → ℕ → Library → Reply × Library
unfolding check_ownership
unlock m t s =
    let s = interrupt_disable s in
    if check_ownership m t s
    then (returns, interrupt_enable (hand_over (s.queues (mutex_queue m)) m s))
    else (throws, interrupt_enable s)

unfoldable pub wait : ℕ → ℕ → ℕ → Library → Reply × Library
unfolding check_ownership swap_helper
wait c m t s =
    let s = interrupt_disable s in
    if check_ownership m t s
    then (let s = push (cv_queue c) t s in
        (returns, swap_helper t (reacquiring m) (hand_over (s.queues (mutex_queue m)) m s)))
    else (throws, interrupt_enable s)

-- The first thread of a queue becomes ready.
abbrev pub wake_first : Queue → List ℕ → Library → Library
wake_first q [] s = s
wake_first q (w ∷ rest) s = push ready_queue w (record s { queues = put_queue s.queues q rest })

unfoldable pub signal : ℕ → Library → Library
signal c s =
    let s = interrupt_disable s in
    interrupt_enable (wake_first (cv_queue c) (s.queues (cv_queue c)) s)

-- All of its threads, in order: the loop of `broadcast` and of `starter`.
unfoldable pub wake_all : Queue → List ℕ → Library → Library
wake_all q [] s = s
wake_all q (w ∷ rest) s = wake_all q rest (wake_first q (w ∷ rest) s)

unfoldable pub broadcast : ℕ → Library → Library
unfolding wake_all
broadcast c s =
    let s = interrupt_disable s in
    interrupt_enable (wake_all (cv_queue c) (s.queues (cv_queue c)) s)

abbrev pub is_empty : List ℕ → Bool
is_empty [] = true
is_empty (x ∷ xs) = false

-- `thread::yield`, also the timer's handler.
unfoldable pub yield : ℕ → Library → Library
unfolding swap_helper
yield t s =
    let s = interrupt_disable s in
    if is_empty (s.queues ready_queue)
    then interrupt_enable s
    else swap_helper t enabling (push ready_queue t s)

unfoldable pub join : ℕ → ℕ → Library → Library
unfolding swap_helper
join target t s =
    let s = interrupt_disable s in
    if s.expired target
    then interrupt_enable s
    else swap_helper t enabling (push (join_queue target) t s)

-- A new TCB with an empty join queue.
abbrev pub new_tcb : Library → Library
new_tcb s = record (push ready_queue s.next_tcb s) {
  point = put s.point s.next_tcb starting;
  next_tcb = suc s.next_tcb;
}

-- The constructor of `thread`; `allocated` says whether the allocation succeeds.
unfoldable pub create_thread : Bool → Library → Reply × Library
create_thread allocated s =
    let s = interrupt_disable s in
    if allocated then (returns, interrupt_enable (new_tcb s)) else (throws, interrupt_enable s)

-- `starter` when the thread's function has returned. If no thread is ready, the host's
-- `running_thread.reset()` destroys the TCB.
abbrev pub leave_cpu : ℕ → List ℕ → Library → Library
leave_cpu t [] s = record (suspend s) { expired = put (suspend s).expired t true }
leave_cpu t (w ∷ rest) s =
    switch (w ∷ rest) (record s { previous_thread = some t; running_thread = none })

unfoldable pub finish : ℕ → Library → Library
unfolding wake_all switch
finish t s =
    let s = interrupt_disable s in
    let s = wake_all (join_queue t) (s.queues (join_queue t)) s in
    leave_cpu t (s.queues ready_queue) s

-- `cpu::cpu` on the first CPU: the state before it, and the first thread.
abbrev pub before_boot : Library
before_boot = record {
  running_thread = none;
  previous_thread = none;
  queues = λ q. [];
  status = λ m. false;
  occupy_thread = λ m. none;
  point = λ t. starting;
  expired = λ t. false;
  next_tcb = 0;
  enabled = false;
}

unfoldable pub cpu : Bool → Reply × Library
unfolding switch
cpu allocated =
    if allocated
    then (let s = new_tcb before_boot in (returns, switch (s.queues ready_queue) s))
    else (throws, interrupt_enable before_boot)
