-- ===== src/ThreadPool.antt =====
-- src/main/cpp/it/d4np/util/thread_pool.hpp: `ThreadPool`, its critical sections. `System` has the
-- threads.
pub mod Order
pub mod System
pub mod Counts
pub mod Drain
pub mod Shutdown
mod Tests
use egl_utils_cpp.Prelude.{
  ℕ, ◌+◌, ◌%◌, ◌^◌, Bool, true, false, not, Option, none, some, List, [], ◌∷◌, length, ltb, ◌==◌,
  if◌then◌else◌,
}
use egl_utils_cpp.Prelude.Int.{ℤ, pos, negsuc}

-- `run` is the callable, by a number.
pub record QueuedTask : Type 0 where
  pub priority : ℤ
  pub sequence : ℕ
  pub run : ℕ

-- `heap_` is the list of its tasks; the order in the vector is that of the heap algorithms.
pub record ThreadPool : Type 0 where
  pub heap : List QueuedTask
  pub next_sequence : ℕ
  pub stopping : Bool

abbrev pub create : ThreadPool
create = record { heap = []; next_sequence = 0; stopping = false }

-- `<` and `==` of `int`.
abbrev pub lt_int : ℤ → ℤ → Bool
lt_int (pos m) (pos n) = ltb m n
lt_int (pos m) (negsuc n) = false
lt_int (negsuc m) (pos n) = true
lt_int (negsuc m) (negsuc n) = ltb n m

abbrev pub eq_int : ℤ → ℤ → Bool
eq_int (pos m) (pos n) = m == n
eq_int (negsuc m) (negsuc n) = m == n
eq_int _ _ = false

unfoldable pub runs_later : QueuedTask → QueuedTask → Bool
runs_later left right =
    if not (eq_int left.priority right.priority)
    then lt_int left.priority right.priority
    else ltb right.sequence left.sequence

-- The critical section of `submit`; `none` is `std::logic_error`.
unfoldable pub submit : ℤ → ℕ → ThreadPool → Option ThreadPool
submit priority run p =
    if p.stopping
    then none
    else some (record p {
      heap = record { priority = priority; sequence = p.next_sequence; run = run } ∷ p.heap;
      next_sequence = (p.next_sequence + 1) % 2 ^ 64;
    })

-- `std::pop_heap`, and `pop_back`: a task that runs later than no other, and the others.
unfoldable pub pop_from : QueuedTask → List QueuedTask → QueuedTask × List QueuedTask
unfolding runs_later
pop_from best [] = (best, [])
pop_from best (x ∷ xs) =
    let later = runs_later best x in
    let (top, rest) = pop_from (if later then x else best) xs in
    (top, (if later then best else x) ∷ rest)

-- The first critical section of `shutdown`.
abbrev pub stop : ThreadPool → ThreadPool
stop p = record p { stopping = true }

abbrev pub pending : ThreadPool → ℕ
pending p = length p.heap

-- What a worker finds in its critical section.
pub data Found : Type 0 where
  -- the predicate of `wait` is false
  sleep : Found
  -- stopping and fully drained
  leave : Found
  start : QueuedTask → ThreadPool → Found

-- The critical section of `worker_loop`.
unfoldable pub next_task : ThreadPool → Found
unfolding pop_from
next_task p = elim (p.heap) [
  | [] ↦ (if p.stopping then leave else sleep)
  | x ∷ xs ↦ let (top, rest) = pop_from x xs in start top (record p { heap = rest })
]
