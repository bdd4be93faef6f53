-- ===== src/Semaphore.antt =====
-- src/main/cpp/it/d4np/util/semaphore.hpp: `Semaphore`. Each critical section under the mutex is one
-- function on the count; `System` has the threads that call them. A `std::ptrdiff_t` argument is a
-- signed integer, and the count, which is never negative, a natural number.
pub mod System
pub mod Safety
mod Tests
use egl_utils_cpp.Prelude.{
  ℕ, zero, suc, ◌+◌, ◌-◌, ◌^◌, Bool, true, false, Option, none, some, ltb, ◌==◌, if◌then◌else◌,
}
use egl_utils_cpp.Prelude.Int.{ℤ, pos, negsuc}

pub record Semaphore : Type 0 where
  pub count : ℕ

-- `max()`.
abbrev pub max_count : ℕ
max_count = 2 ^ 63 - 1

-- The constructor: `none` is the `std::invalid_argument` of a negative initial count.
pub create : ℤ → Option Semaphore
create (pos initial) = some (record { count = initial })
create (negsuc n) = none

-- The predicate of the waits on `available_`.
abbrev pub has_units : Semaphore → Bool
has_units s = ltb 0 s.count

-- `acquire` and its timed forms from the end of a wait whose predicate holds.
pub take_unit : Semaphore → Semaphore
take_unit s = record { count = s.count - 1 }

pub try_acquire : Semaphore → Bool × Semaphore
unfolding take_unit
try_acquire s = if s.count == 0 then (false, s) else (true, take_unit s)

-- Which waiters a release notifies, or which exception it throws.
pub data Release : Type 0 where
  no_op wake_one wake_all : Release
  invalid_argument overflow_error : Release

release_units : ℕ → Semaphore → Release × Semaphore
release_units zero s = (no_op, s)
release_units (suc n) s =
    if ltb (max_count - suc n) s.count
    then (overflow_error, s)
    else (if n == 0 then wake_one else wake_all, record { count = s.count + suc n })

pub release : ℤ → Semaphore → Release × Semaphore
unfolding release_units
release (negsuc n) s = (invalid_argument, s)
release (pos n) s = release_units n s
