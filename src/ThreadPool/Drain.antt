-- ===== src/ThreadPool/Drain.antt =====
-- The invariant of the system, and that every move keeps it.
use egl_utils_cpp.Prelude.{
  ℕ, Bool, suc, ◌+◌, ◌-◌, ◌<◌, ◌≡◌, refl, sym, ap, subst, true, Option, none, some, List, [], ◌∷◌,
  length, ltb, ltb→lt, lt→ltb, ◌⊎◌, if◌then◌else◌, Bool-cases, inl, inr, arith,
}
use egl_utils_cpp.ThreadPool.{
  QueuedTask, ThreadPool, Found, sleep, leave, start, submit, next_task, pop_from,
}
use egl_utils_cpp.ThreadPool.System.{
  System, Move, call_submit, notify_one, call_shutdown, notify_all, worker_tests, worker_wakes,
  task_returns, take_at, step,
}
use egl_utils_cpp.ThreadPool.Counts.{
  count_of, count_of-cons, count_of-pop_from, IsTaken, take_at-IsTaken,
}

-- The invariant, with the count of the tasks that pass a test.
pub record IsOrderly (threads : ℕ) (test : QueuedTask → Bool) (s : System) : Type 0 where
  pub workers : s.testing + s.asleep + length s.running + s.returned ≡ threads
  pub kept :
      count_of test s.accepted
      ≡ count_of test s.pool.heap + count_of test s.running + count_of test s.finished
  -- a worker returns from an empty queue that admits nothing any more
  pub left : 0 < s.returned → length s.pool.heap ≡ 0
  pub closed : 0 < s.returned → s.pool.stopping ≡ true
  -- no sleeper is forgotten
  pub awake :
      0 < length s.pool.heap
      → 0 < s.asleep
      → 0 < s.testing + length s.running + s.notifying_one + s.notifying_all
  pub stopped : s.pool.stopping ≡ true → 0 < s.asleep → 0 < s.notifying_all

abbrev pub Keeps : ℕ → (QueuedTask → Bool) → Option System → Type 0
Keeps threads test none = Unit {0}
Keeps threads test (some s) = IsOrderly threads test s

-- The task that is taken at the end of `task_returns`, whichever it is.
abbrev after_return : System → Option (QueuedTask × List QueuedTask) → Option System
after_return s none = none
after_return s (some (t, ts)) =
    some (record s { running = ts; testing = s.testing + 1; finished = t ∷ s.finished })

returned_task :
    (threads : ℕ) (test : QueuedTask → Bool) (s : System)
    → IsOrderly threads test s
    → (o : Option (QueuedTask × List QueuedTask)) → IsTaken test s.running o
    → Keeps threads test (after_return s o)
returned_task threads test s g none h = tt
returned_task threads test s g (some (t, ts)) (counts, lengths) = record {
  workers = omega (arith, g.workers);
  kept = omega (arith, g.kept, count_of-cons test t s.finished);
  left = g.left;
  closed = g.closed;
  awake = λ h k. omega arith;
  stopped = g.stopped;
}

abbrev after_test : System → Found → Option System
after_test s sleep = some (record s { testing = s.testing - 1; asleep = s.asleep + 1 })
after_test s leave = some (record s { testing = s.testing - 1; returned = s.returned + 1 })
after_test s (start t p) =
    some (record s { pool = p; testing = s.testing - 1; running = t ∷ s.running })

tested_empty :
    (threads : ℕ) (test : QueuedTask → Bool) (s : System)
    → 0 < s.testing
    → IsOrderly threads test s
    → s.pool.heap ≡ []
    → Keeps threads test (after_test s (if s.pool.stopping then leave else sleep))
tested_empty threads test s some_testing g empty =
    let none_queued : length s.pool.heap ≡ 0 = ap length empty in
    elim (Bool-cases s.pool.stopping) [
      | inl e ↦
          subst (λ b. Keeps threads test (after_test s (if b then leave else sleep))) (sym e)
            (record {
              workers = omega (arith, g.workers);
              kept = g.kept;
              left = λ h. none_queued;
              closed = λ h. e;
              awake = λ h k. absurd (omega arith);
              stopped = g.stopped;
            })
      | inr e ↦
          subst (λ b. Keeps threads test (after_test s (if b then leave else sleep))) (sym e)
            (record {
              workers = omega (arith, g.workers);
              kept = g.kept;
              left = g.left;
              closed = g.closed;
              awake = λ h k. absurd (omega arith);
              stopped = λ h k. absurd (let c = h in cc);
            })
    ]

tested_full :
    (threads : ℕ) (test : QueuedTask → Bool) (s : System) (x : QueuedTask) (xs : List QueuedTask)
    → 0 < s.testing
    → IsOrderly threads test s
    → s.pool.heap ≡ x ∷ xs
    → Keeps threads test
        (after_test s (start (pop_from x xs).0 (record s.pool { heap = (pop_from x xs).1 })))
tested_full threads test s x xs some_testing g full =
    let (top, rest) = pop_from x xs in
    let queued : length s.pool.heap ≡ suc (length xs) = ap length full in
    let counted : count_of test s.pool.heap ≡ count_of test (x ∷ xs) = ap (count_of test) full in
    let popped = count_of-pop_from test x xs in
    record {
      workers = omega (arith, g.workers);
      kept = omega (arith, g.kept, count_of-cons test x xs, count_of-cons test top s.running);
      left = λ h. absurd (let l = g.left h in omega arith);
      closed = g.closed;
      awake = λ h k. omega arith;
      stopped = g.stopped;
    }

next_task-empty :
    (p : ThreadPool) → p.heap ≡ [] → next_task p ≡ (if p.stopping then leave else sleep)
unfolding next_task
next_task-empty p e = rw e refl

next_task-full :
    (p : ThreadPool) (x : QueuedTask) (xs : List QueuedTask)
    → p.heap ≡ x ∷ xs
    → next_task p ≡ start (pop_from x xs).0 (record p { heap = (pop_from x xs).1 })
unfolding next_task
next_task-full p x xs e = rw e refl

List-cases :
    (ts : List QueuedTask) → (ts ≡ []) ⊎ ((x : QueuedTask) × (xs : List QueuedTask) × (ts ≡ x ∷ xs))
List-cases [] = inl refl
List-cases (x ∷ xs) = inr (x, xs, refl)

tested :
    (threads : ℕ) (test : QueuedTask → Bool) (s : System)
    → 0 < s.testing
    → IsOrderly threads test s
    → Keeps threads test (after_test s (next_task s.pool))
tested threads test s some_testing g = elim (List-cases s.pool.heap) [
  | inl empty ↦
      subst (λ f. Keeps threads test (after_test s f)) (sym (next_task-empty s.pool empty))
        (tested_empty threads test s some_testing g empty)
  | inr (x, xs, full) ↦
      subst (λ f. Keeps threads test (after_test s f)) (sym (next_task-full s.pool x xs full))
        (tested_full threads test s x xs some_testing g full)
]

pub step-IsOrderly :
    (threads : ℕ) (test : QueuedTask → Bool) (m : Move) (s : System)
    → IsOrderly threads test s
    → Keeps threads test (step m s)
unfolding step submit
step-IsOrderly threads test (call_submit priority r) s g = elim (Bool-cases s.pool.stopping) [
  | inl e ↦ rw e tt
  | inr e ↦
      let t : QueuedTask = record {
        priority = priority;
        sequence = s.pool.next_sequence;
        run = r;
      } in
      rw e (record {
        workers = g.workers;
        kept =
            omega
              (arith, g.kept, count_of-cons test t s.pool.heap, count_of-cons test t s.accepted);
        left = λ h. absurd (let c = g.closed h in cc);
        closed = λ h. let c = g.closed h in cc;
        awake = λ h k. omega arith;
        stopped = λ h k. absurd (let c = h in cc);
      })
]
step-IsOrderly threads test notify_one s g = elim (Bool-cases (ltb 0 s.notifying_one)) [
  | inr e ↦ rw e tt
  | inl e ↦ elim (Bool-cases (ltb 0 s.asleep)) [
    | inl a ↦
        let some_asleep = ltb→lt 0 s.asleep a in
        rw (e, a)
          (record {
            workers = omega (arith, g.workers);
            kept = g.kept;
            left = g.left;
            closed = g.closed;
            awake = λ h k. omega arith;
            stopped = λ h k. g.stopped h (omega arith);
          })
    | inr a ↦
        rw (e, a)
          (record {
            workers = g.workers;
            kept = g.kept;
            left = g.left;
            closed = g.closed;
            awake = λ h k. absurd (let w = lt→ltb 0 s.asleep k in cc);
            stopped = g.stopped;
          })
  ]
]
step-IsOrderly threads test call_shutdown s g = record {
  workers = g.workers;
  kept = g.kept;
  left = g.left;
  closed = λ h. refl;
  awake = λ h k. omega arith;
  stopped = λ h k. omega arith;
}
step-IsOrderly threads test notify_all s g = elim (Bool-cases (ltb 0 s.notifying_all)) [
  | inr e ↦ rw e tt
  | inl e ↦ rw e (record {
    workers = omega (arith, g.workers);
    kept = g.kept;
    left = g.left;
    closed = g.closed;
    awake = λ h k. absurd (omega arith);
    stopped = λ h k. absurd (omega arith);
  })
]
step-IsOrderly threads test worker_tests s g = elim (Bool-cases (ltb 0 s.testing)) [
  | inr e ↦ rw e tt
  | inl e ↦ rw e (tested threads test s (ltb→lt 0 s.testing e) g)
]
step-IsOrderly threads test worker_wakes s g = elim (Bool-cases (ltb 0 s.asleep)) [
  | inr e ↦ rw e tt
  | inl e ↦
      let some_asleep = ltb→lt 0 s.asleep e in
      rw e (record {
        workers = omega (arith, g.workers);
        kept = g.kept;
        left = g.left;
        closed = g.closed;
        awake = λ h k. omega arith;
        stopped = λ h k. g.stopped h (omega arith);
      })
]
step-IsOrderly threads test (task_returns i) s g =
    returned_task threads test s g (take_at i s.running) (take_at-IsTaken test i s.running)
