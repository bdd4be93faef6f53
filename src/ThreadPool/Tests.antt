-- ===== src/ThreadPool/Tests.antt =====
-- A pool of two workers.
use egl_utils_cpp.Prelude.{ℕ, ◌+◌, ◌≡◌, refl, true, false, some, List, [], ◌∷◌, length, ◌==◌, arith}
use egl_utils_cpp.Prelude.Int.{pos, negsuc}
use egl_utils_cpp.ThreadPool.{QueuedTask, ThreadPool, start, next_task, runs_later}
use egl_utils_cpp.ThreadPool.Order.{IsFirst, next_task-IsFirst}
use egl_utils_cpp.ThreadPool.System.{
  System, begin, Move, call_submit, notify_one, call_shutdown, notify_all, worker_tests,
  task_returns, run,
}
use egl_utils_cpp.ThreadPool.Counts.{count_of, one_of}
use egl_utils_cpp.ThreadPool.Shutdown.{all_drained, none_forgotten}

abbrev task : ℕ → QueuedTask
task sequence = record { priority = pos 1; sequence = sequence; run = 7 }

abbrev low : QueuedTask
low = record { priority = negsuc 0; sequence = 0; run = 5 }

abbrev queued : ThreadPool
queued = record { heap = low ∷ task 2 ∷ task 1 ∷ []; next_sequence = 3; stopping = false }

abbrev taken : ThreadPool
taken = record queued { heap = low ∷ task 2 ∷ [] }

first_taken : next_task queued ≡ start (task 1) taken
unfolding next_task runs_later
first_taken = refl

next_task-IsFirst_example :
    IsFirst (task 1) (low ∷ task 2 ∷ [])
    × (count_of (λ t. t.run == 7) queued.heap
        ≡ one_of (λ t. t.run == 7) (task 1) + count_of (λ t. t.run == 7) taken.heap)
next_task-IsFirst_example = next_task-IsFirst queued taken (task 1) (λ t. t.run == 7) first_taken

abbrev moves : List Move
moves =
    worker_tests
    ∷ call_submit (pos 1) 7
    ∷ call_shutdown
    ∷ worker_tests
    ∷ notify_all
    ∷ worker_tests
    ∷ notify_one
    ∷ task_returns 0
    ∷ worker_tests
    ∷ []

abbrev last : System
last = record {
  pool = record { heap = []; next_sequence = 1; stopping = true };
  testing = 0;
  asleep = 0;
  running = [];
  returned = 2;
  notifying_one = 0;
  notifying_all = 0;
  accepted = task 0 ∷ [];
  finished = task 0 ∷ [];
}

ran : run moves (begin 2) ≡ some last
unfolding run
ran = refl

all_drained_example :
    (length last.pool.heap ≡ 0)
    × (length last.running ≡ 0)
    × (count_of (λ t. t.run == 7) last.finished ≡ count_of (λ t. t.run == 7) last.accepted)
all_drained_example = all_drained 2 (λ t. t.run == 7) moves (omega arith) ran refl

none_forgotten_example : length last.pool.heap ≡ 0
none_forgotten_example = none_forgotten 2 moves (omega arith) ran refl
