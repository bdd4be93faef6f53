-- ===== src/Semaphore/Safety.antt =====
-- Units are conserved, the count stays in range, and no wakeup is lost.
use egl_utils_cpp.Prelude.{ℕ, zero, suc, ◌+◌, ◌≤◌, ◌<◌, ◌≡◌, ◌⊎◌, some, arith}
use egl_utils_cpp.Prelude.Int.{pos, negsuc}
use egl_utils_cpp.Semaphore.{max_count}
use egl_utils_cpp.Semaphore.System.{
  System, start, Move, call_release, step, IsMove, Reach, here, next,
}

pub record IsSafe (initial : ℕ) (s : System) : Type 0 where
  pub conserved : s.count + s.taken ≡ initial + s.returned
  pub in_range : s.count ≤ max_count
  pub awake : (s.asleep ≡ 0) ⊎ (0 < s.notifying_all) ⊎ (s.count ≤ s.woken + s.notifying_one)

step-IsSafe :
    {initial : ℕ} (m : Move) {s t : System}
    → IsMove m
    → IsSafe initial s
    → step m s ≡ some t
    → IsSafe initial t
unfolding step
step-IsSafe (call_release (pos zero)) i v e = ground arith
step-IsSafe (call_release (pos (suc n))) i v e = ground arith
step-IsSafe (call_release (negsuc n)) i v e = ground arith
step-IsSafe _ i v e = ground arith

start-IsSafe : (initial threads : ℕ) → initial ≤ max_count → IsSafe initial (start initial threads)
start-IsSafe initial threads h = ground arith

-- From an initial count of at most `max()`, however the calls of any number of threads interleave:
-- the units available and taken are those given at first and those that the arguments of the releases
-- have given back since, each the whole of its argument, or nothing where that is negative or the
-- count would pass `max()`; the count never passes `max()`; and where a thread sleeps, a `notify_all` is on its way or there are no more units than
-- threads woken and pending calls of `notify_one`.
pub Reach-IsSafe :
    {initial threads : ℕ} {s : System}
    → initial ≤ max_count
    → Reach (start initial threads) s
    → IsSafe initial s
Reach-IsSafe {initial} {threads} h here = start-IsSafe initial threads h
Reach-IsSafe h (next m r i e) = step-IsSafe m i (Reach-IsSafe h r) e
