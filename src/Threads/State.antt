-- ===== src/Threads/State.antt =====
-- The state of the library (Project2/thread_lib.cpp, thread.h, mutex.h, cv.h), and the switch to
-- another thread. A thread is the number of its TCB; a queue object is named by the object that it
-- is part of.
use eecs.Base.{ℕ, Bool, true, false, List, [], ◌∷◌, ◌++◌, Option, none, some, ◌==◌, if◌then◌else◌}

pub data Queue : Type 0 where
  ready_queue : Queue
  mutex_queue : ℕ → Queue
  cv_queue : ℕ → Queue
  join_queue : ℕ → Queue

abbrev pub same_queue : Queue → Queue → Bool
same_queue ready_queue ready_queue = true
same_queue (mutex_queue m) (mutex_queue n) = m == n
same_queue (cv_queue m) (cv_queue n) = m == n
same_queue (join_queue m) (join_queue n) = m == n
same_queue _ _ = false

-- Where a saved context goes on: at the start of `starter`; behind a `swap_helper` that only enables
-- interrupts after it; behind the first `swap_helper` of `cv::wait`.
pub data Point : Type 0 where
  starting : Point
  enabling : Point
  reacquiring : ℕ → Point

-- `expired` is true of a TCB that has been destroyed; `enabled` is the interrupt flag.
pub record Library : Type 0 where
  pub running_thread : Option ℕ
  pub previous_thread : Option ℕ
  pub queues : Queue → List ℕ
  pub status : ℕ → Bool
  pub occupy_thread : ℕ → Option ℕ
  pub point : ℕ → Point
  pub expired : ℕ → Bool
  pub next_tcb : ℕ
  pub enabled : Bool

abbrev pub put {ℓ} : {A : Type ℓ} → (ℕ → A) → ℕ → A → ℕ → A
put f k v j = if j == k then v else f j

abbrev pub put_queue : (Queue → List ℕ) → Queue → List ℕ → Queue → List ℕ
put_queue f q l r = if same_queue r q then l else f r

abbrev pub push : Queue → ℕ → Library → Library
push q t s = record s { queues = put_queue s.queues q (s.queues q ++ t ∷ []) }

abbrev pub interrupt_disable : Library → Library
interrupt_disable s = record s { enabled = false }

abbrev pub interrupt_enable : Library → Library
interrupt_enable s = record s { enabled = true }

abbrev pub take_lock : ℕ → ℕ → Library → Library
take_lock m t s = record s {
  status = put s.status m true;
  occupy_thread = put s.occupy_thread m (some t);
}

abbrev pub destroy : Option ℕ → (ℕ → Bool) → ℕ → Bool
destroy none expired = expired
destroy (some p) expired = put expired p true

-- `previous_thread.reset()`. It is the last reference to the TCB of a thread that has finished: no
-- queue has it.
abbrev pub reset_previous : Library → Library
reset_previous s = record s {
  previous_thread = none;
  expired = destroy s.previous_thread s.expired;
}

-- The host context: no thread is ready, and the CPU suspends.
abbrev pub suspend : Library → Library
suspend s = record (reset_previous s) { running_thread = none; enabled = true }

-- `running_thread = ready_queue.front(); ready_queue.pop();`
abbrev pub start_next : ℕ → List ℕ → Library → Library
start_next t rest s = record s {
  running_thread = some t;
  queues = put_queue s.queues ready_queue rest;
}

abbrev pub save_point : ℕ → Point → Library → Library
save_point t p s = record s { point = put s.point t p }

-- What the context of thread `t` does from its point on, until it is in user code or has switched to
-- another thread, which `next` does.
unfoldable pub resume : Point → ℕ → (Library → Library) → Library → Library
resume starting t next s = interrupt_enable (reset_previous s)
resume enabling t next s = interrupt_enable (reset_previous s)
resume (reacquiring m) t next s = elim (s.status m) [
  | true ↦ next (save_point t enabling (push (mutex_queue m) t (reset_previous s)))
  | false ↦ interrupt_enable (take_lock m t (reset_previous s))
]

-- The switch to the first ready thread, where the ready queue is the list.
unfoldable pub switch : List ℕ → Library → Library
unfolding resume
switch [] s = suspend s
switch (t ∷ rest) s = resume (s.point t) t (switch rest) (start_next t rest s)

-- `swap_helper` of the running thread `t`, which goes on at the point when it runs again.
unfoldable pub swap_helper : ℕ → Point → Library → Library
unfolding switch
swap_helper t p s = let s' = save_point t p s in switch (s'.queues ready_queue) s'
