-- ===== src/Semaphore/System.antt =====
-- Any number of threads that share a `Semaphore`, in any interleaving of their critical sections and
-- notifications. Threads of one phase are interchangeable, so the system counts them.
use egl_utils_cpp.Prelude.{ℕ, ◌+◌, ◌-◌, ◌≤◌, ◌≡◌, Option, none, some, ltb, leb, if◌then◌else◌}
use egl_utils_cpp.Prelude.Int.{ℤ, pos, negsuc}
use egl_utils_cpp.Semaphore.{
  Semaphore, max_count, has_units, take_unit, try_acquire, Release, no_op, wake_one, wake_all,
  invalid_argument, overflow_error, release,
}

-- `taken` counts the units that the threads have acquired so far, and `returned` those that the
-- arguments of their releases have given back.
pub record System : Type 0 where
  pub semaphore : Semaphore
  pub open semaphore use *
  pub idle : ℕ
  pub asleep : ℕ
  pub woken : ℕ
  pub notifying_one : ℕ
  pub notifying_all : ℕ
  pub taken : ℕ
  pub returned : ℕ

abbrev pub start : ℕ → ℕ → System
start initial threads = record {
  semaphore = record { count = initial };
  idle = threads;
  asleep = 0;
  woken = 0;
  notifying_one = 0;
  notifying_all = 0;
  taken = 0;
  returned = 0;
}

pub data Move : Type 0 where
  -- `acquire`, `try_acquire_for`, `try_acquire_until`: to a unit or to sleep
  call_acquire : Move
  -- a sleeper wakes without a notification, or at its deadline
  waiter_wakes : Move
  -- a woken thread tests the predicate, and takes a unit or sleeps again
  waiter_tests : Move
  -- ... or, past its deadline, takes a unit or gives up
  waiter_times_out : Move
  call_try_acquire : Move
  call_release : ℤ → Move
  notify_one notify_all : Move

abbrev when : ℕ → System → Option System
when threads t = if ltb 0 threads then some t else none

-- What the argument of `release` gives back at a count: all of it, or nothing where it is negative or
-- the count would pass `max()`.
abbrev given_back : ℤ → ℕ → ℕ
given_back (pos n) count = if leb (count + n) max_count then n else 0
given_back (negsuc n) count = 0

-- The thread after the critical section of `release`, before its notification.
released : Release × Semaphore → System → System
released (wake_one, c) s = record s {
  semaphore = c;
  idle = s.idle - 1;
  notifying_one = s.notifying_one + 1;
}
released (wake_all, c) s = record s {
  semaphore = c;
  idle = s.idle - 1;
  notifying_all = s.notifying_all + 1;
}
released (no_op, c) s = record s { semaphore = c }
released (invalid_argument, c) s = record s { semaphore = c }
released (overflow_error, c) s = record s { semaphore = c }

unfoldable pub step : Move → System → Option System
unfolding take_unit try_acquire release released
step call_acquire s = when s.idle (
    if has_units s.semaphore
    then record s { semaphore = take_unit s.semaphore; taken = s.taken + 1 }
    else record s { idle = s.idle - 1; asleep = s.asleep + 1 })
step waiter_wakes s = when s.asleep (record s { asleep = s.asleep - 1; woken = s.woken + 1 })
step waiter_tests s = when s.woken (
    if has_units s.semaphore
    then record s {
      semaphore = take_unit s.semaphore;
      woken = s.woken - 1;
      idle = s.idle + 1;
      taken = s.taken + 1;
    }
    else record s { woken = s.woken - 1; asleep = s.asleep + 1 })
step waiter_times_out s = when s.woken (
    if has_units s.semaphore
    then record s {
      semaphore = take_unit s.semaphore;
      woken = s.woken - 1;
      idle = s.idle + 1;
      taken = s.taken + 1;
    }
    else record s { woken = s.woken - 1; idle = s.idle + 1 })
step call_try_acquire s =
    let (done, c) = try_acquire s.semaphore in
    when s.idle (if done then record s { semaphore = c; taken = s.taken + 1 } else s)
step (call_release update) s = when s.idle (
    released (release update s.semaphore)
      (record s { returned = s.returned + given_back update s.count }))
step notify_one s = when s.notifying_one (
    if ltb 0 s.asleep
    then record s {
      notifying_one = s.notifying_one - 1;
      idle = s.idle + 1;
      asleep = s.asleep - 1;
      woken = s.woken + 1;
    }
    else record s { notifying_one = s.notifying_one - 1; idle = s.idle + 1 })
step notify_all s = when s.notifying_all (record s {
  notifying_all = s.notifying_all - 1;
  idle = s.idle + 1;
  asleep = 0;
  woken = s.woken + s.asleep;
})

-- The argument of `release` is a `std::ptrdiff_t`.
abbrev pub IsMove : Move → Type 0
IsMove (call_release (pos n)) = n ≤ max_count
IsMove (call_release (negsuc n)) = n ≤ max_count
IsMove _ = Unit {0}

pub data Reach (s : System) : System → Type 0 where
  here : Reach s s
  next : {t u : System} (m : Move) → Reach s t → IsMove m → step m t ≡ some u → Reach s u
