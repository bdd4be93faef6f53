-- ===== src/ThreadPool/System.antt =====
-- The workers of a pool and the threads that call it, in any interleaving. Threads of one phase are
-- interchangeable, so the system counts them, apart from the tasks that run.
use egl_utils_cpp.Prelude.{
  ℕ, zero, suc, ◌+◌, ◌-◌, Option, none, some, List, [], ◌∷◌, ltb, if◌then◌else◌,
}
use egl_utils_cpp.Prelude.Int.{ℤ}
use egl_utils_cpp.ThreadPool.{
  QueuedTask, ThreadPool, create, submit, stop, sleep, leave, start, next_task,
}

-- The workers in front of the critical section of `worker_loop`, asleep in it, with a task, or
-- returned; and the calls between their critical section and their notification. `accepted` has
-- the arguments of the calls of `submit` that did not throw, and `finished` the tasks that have run.
pub record System : Type 0 where
  pub pool : ThreadPool
  pub testing : ℕ
  pub asleep : ℕ
  pub running : List QueuedTask
  pub returned : ℕ
  pub notifying_one : ℕ
  pub notifying_all : ℕ
  pub accepted : List QueuedTask
  pub finished : List QueuedTask

abbrev pub begin : ℕ → System
begin thread_count = record {
  pool = create;
  testing = thread_count;
  asleep = 0;
  running = [];
  returned = 0;
  notifying_one = 0;
  notifying_all = 0;
  accepted = [];
  finished = [];
}

pub data Move : Type 0 where
  -- the critical section of `submit`, of any thread, and its `notify_one`
  call_submit : ℤ → ℕ → Move
  notify_one : Move
  -- the critical section of `shutdown`, and its `notify_all`
  call_shutdown notify_all : Move
  -- a worker tests the predicate: takes a task, sleeps, or returns
  worker_tests : Move
  -- a sleeping worker wakes without a notification
  worker_wakes : Move
  -- the task at a place among the running ones returns
  task_returns : ℕ → Move

-- The task at a place, and the others.
unfoldable pub take_at : ℕ → List QueuedTask → Option (QueuedTask × List QueuedTask)
take_at i [] = none
take_at zero (t ∷ ts) = some (t, ts)
take_at (suc i) (t ∷ ts) = elim (take_at i ts) [ none ↦ none | some (u, us) ↦ some (u, t ∷ us) ]

-- `none` where no thread is at that point, or the call throws.
unfoldable pub step : Move → System → Option System
unfolding submit next_task take_at
step (call_submit priority run) s = elim (submit priority run s.pool) [
  | none ↦ none
  | some p ↦ some (record s {
    pool = p;
    notifying_one = s.notifying_one + 1;
    accepted =
        record { priority = priority; sequence = s.pool.next_sequence; run = run } ∷ s.accepted;
  })
]
step notify_one s =
    if ltb 0 s.notifying_one
    then some (
        if ltb 0 s.asleep
        then record s {
          notifying_one = s.notifying_one - 1;
          asleep = s.asleep - 1;
          testing = s.testing + 1;
        }
        else record s { notifying_one = s.notifying_one - 1 })
    else none
step call_shutdown s = some (record s { pool = stop s.pool; notifying_all = s.notifying_all + 1 })
step notify_all s =
    if ltb 0 s.notifying_all
    then some (record s {
      notifying_all = s.notifying_all - 1;
      asleep = 0;
      testing = s.testing + s.asleep;
    })
    else none
step worker_tests s =
    if ltb 0 s.testing
    then elim (next_task s.pool) [
      | sleep ↦ some (record s { testing = s.testing - 1; asleep = s.asleep + 1 })
      | leave ↦ some (record s { testing = s.testing - 1; returned = s.returned + 1 })
      | start t p ↦ some (record s { pool = p; testing = s.testing - 1; running = t ∷ s.running })
    ]
    else none
step worker_wakes s =
    if ltb 0 s.asleep
    then some (record s { asleep = s.asleep - 1; testing = s.testing + 1 })
    else none
step (task_returns i) s = elim (take_at i s.running) [
  | none ↦ none
  | some (t, ts) ↦
      some (record s { running = ts; testing = s.testing + 1; finished = t ∷ s.finished })
]

unfoldable pub run : List Move → System → Option System
unfolding step
run [] s = some s
run (m ∷ ms) s = elim (step m s) [ none ↦ none | some s' ↦ run ms s' ]
