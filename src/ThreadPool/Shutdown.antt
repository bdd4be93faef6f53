-- ===== src/ThreadPool/Shutdown.antt =====
-- What holds in every interleaving, when nothing moves any more.
use egl_utils_cpp.Prelude.{
  ℕ, Bool, ◌+◌, ◌<◌, ◌≡◌, refl, subst, true, some, List, [], ◌∷◌, length, lt_cases, Option-cases,
  inl, inr, arith,
}
use egl_utils_cpp.ThreadPool.{QueuedTask}
use egl_utils_cpp.ThreadPool.System.{System, begin, Move, step, run}
use egl_utils_cpp.ThreadPool.Counts.{count_of, count_of-nil}
use egl_utils_cpp.ThreadPool.Drain.{IsOrderly, Keeps, step-IsOrderly}

run-IsOrderly :
    (threads : ℕ) (test : QueuedTask → Bool) (ms : List Move) (s : System)
    → IsOrderly threads test s
    → Keeps threads test (run ms s)
unfolding run
run-IsOrderly threads test [] s g = g
run-IsOrderly threads test (m ∷ ms) s g = elim (Option-cases (step m s)) [
  | inl e ↦ rw (run, e) tt
  | inr (s', e) ↦
      let kept : IsOrderly threads test s' =
        subst (Keeps threads test) e (step-IsOrderly threads test m s g) in
      rw (run, e) (run-IsOrderly threads test ms s' kept)
]

begin-IsOrderly : (threads : ℕ) (test : QueuedTask → Bool) → IsOrderly threads test (begin threads)
unfolding count_of
begin-IsOrderly threads test = record {
  workers = omega arith;
  kept = omega arith;
  left = λ h. refl;
  closed = λ h. absurd (omega arith);
  awake = λ h k. absurd (omega arith);
  stopped = λ h k. absurd (let c = h in cc);
}

reached :
    (threads : ℕ) (test : QueuedTask → Bool) (ms : List Move) {s : System}
    → run ms (begin threads) ≡ some s
    → IsOrderly threads test s
reached threads test ms h =
    subst (Keeps threads test) h
      (run-IsOrderly threads test ms (begin threads) (begin-IsOrderly threads test))

-- In every interleaving of a pool with a worker at least: when all workers have returned, as the
-- joins of `shutdown` wait for, no task is queued or running, and the tasks that have run are
-- those that the calls of `submit` passed and that were accepted: by any test of a task's priority,
-- sequence number and callable, as many have run as were accepted.
pub all_drained :
    (threads : ℕ) (test : QueuedTask → Bool) (ms : List Move) {s : System}
    → 0 < threads
    → run ms (begin threads) ≡ some s
    → s.returned ≡ threads
    → (length s.pool.heap ≡ 0)
      × (length s.running ≡ 0)
      × (count_of test s.finished ≡ count_of test s.accepted)
unfolding count_of
all_drained threads test ms {s} some_worker h all =
    let g = reached threads test ms h in
    let workers = g.workers in
    let none_queued = g.left (omega arith) in
    let none_running : length s.running ≡ 0 = omega arith in
    let queued = count_of-nil test s.pool.heap none_queued in
    let running = count_of-nil test s.running none_running in
    (none_queued, none_running, omega (arith, g.kept))

-- In every interleaving of a pool with a worker at least: when no worker is awake or runs a task, and
-- no notification is on its way, no task is queued. No wakeup is lost.
pub none_forgotten :
    (threads : ℕ) (ms : List Move) {s : System}
    → 0 < threads
    → run ms (begin threads) ≡ some s
    → s.testing + length s.running + s.notifying_one + s.notifying_all ≡ 0
    → length s.pool.heap ≡ 0
none_forgotten threads ms {s} some_worker h quiet =
    let g = reached threads (λ t. true) ms h in
    let workers = g.workers in
    elim (lt_cases 0 (length s.pool.heap)) [
      | inr empty ↦ omega arith
      | inl queued ↦ elim (lt_cases 0 s.asleep) [
        | inl asleep ↦ absurd (let a = g.awake queued asleep in omega arith)
        | inr awake ↦ let l = g.left (omega arith) in l
      ]
    ]

-- In every interleaving, when the pool is stopping, no worker is awake or runs a task, and no
-- notification is on its way, all workers have returned, so that `shutdown` can join them.
pub all_returned :
    (threads : ℕ) (ms : List Move) {s : System}
    → run ms (begin threads) ≡ some s
    → s.pool.stopping ≡ true
    → s.testing + length s.running + s.notifying_one + s.notifying_all ≡ 0
    → s.returned ≡ threads
all_returned threads ms {s} h stopping quiet =
    let g = reached threads (λ t. true) ms h in
    let workers = g.workers in
    elim (lt_cases 0 s.asleep) [
      | inl asleep ↦ absurd (let a = g.stopped stopping asleep in omega arith)
      | inr awake ↦ omega arith
    ]
