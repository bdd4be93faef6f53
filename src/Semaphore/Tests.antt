-- ===== src/Semaphore/Tests.antt =====
-- Two threads wait for a semaphore without units, and a third releases two.
use egl_utils_cpp.Prelude.{◌≡◌, refl, some, none, arith}
use egl_utils_cpp.Prelude.Int.{pos, negsuc}
use egl_utils_cpp.Semaphore.{max_count, create, release, overflow_error, invalid_argument}
use egl_utils_cpp.Semaphore.System.{
  System, start, call_acquire, call_release, notify_all, step, Reach, here, next,
}
use egl_utils_cpp.Semaphore.Safety.{IsSafe, Reach-IsSafe}

abbrev woken_up : System
woken_up = record {
  semaphore = record { count = 2 };
  idle = 1;
  asleep = 0;
  woken = 2;
  notifying_one = 0;
  notifying_all = 0;
  taken = 0;
  returned = 2;
}

Reach-woken_up : Reach (start 0 3) woken_up
unfolding step
Reach-woken_up =
    next notify_all
      (next (call_release (pos 2)) (next call_acquire (next call_acquire here tt refl) tt refl)
        (omega arith) refl)
      tt refl

Reach-IsSafe_example : IsSafe 0 woken_up
Reach-IsSafe_example = Reach-IsSafe (omega arith) Reach-woken_up

release_limits :
    (release (pos 1) (record { count = max_count })
      ≡ (overflow_error, record { count = max_count }))
    × (release (negsuc 0) (record { count = 4 }) ≡ (invalid_argument, record { count = 4 }))
unfolding release
release_limits = (refl, refl)

create_limits : (create (pos 3) ≡ some (record { count = 3 })) × (create (negsuc 0) ≡ none)
unfolding create
create_limits = (refl, refl)
