-- ===== src/TaskFuture/Wakeup.antt =====
-- src/main/cpp/it/d4np/util/task_future.hpp: the wakeups of the threads that wait for an outcome.
use egl_utils_cpp.Prelude.{◌<◌, ◌≡◌, ◌⊎◌, true, false, some, arith}
use egl_utils_cpp.TaskFuture.{has_outcome}
use egl_utils_cpp.TaskFuture.System.{
  System, Move, decide, fail, abandons, notify_all, call_wait, waiter_wakes, waiter_tests,
  waiter_times_out, start, step, Reach, here, next,
}

module _ {A E : Type 0} where
  pub record IsAwake (s : System A E) : Type 0 where
    pub told : (has_outcome s.state ≡ false) ⊎ (s.asleep ≡ 0) ⊎ (0 < s.notifying)
    pub undecided : (has_outcome s.state ≡ true) ⊎ ((s.answered ≡ 0) × (s.notifying ≡ 0))

  step-IsAwake : (m : Move A E) {s t : System A E} → IsAwake s → step m s ≡ some t → IsAwake t
  unfolding step
  step-IsAwake (decide a) i e = ground arith
  step-IsAwake (fail x) i e = ground arith
  step-IsAwake abandons i e = ground arith
  step-IsAwake notify_all i e = ground arith
  step-IsAwake call_wait i e = ground arith
  step-IsAwake waiter_wakes i e = ground arith
  step-IsAwake waiter_tests i e = ground arith
  step-IsAwake waiter_times_out i e = ground arith

  -- From a new shared state, however any number of waits, calls that decide the outcome and the end of the
  -- promise interleave: before an outcome is decided no wait has ended with one and no notification is
  -- on its way; afterwards no thread sleeps, or a notification to all is on its way.
  pub Reach-IsAwake : {s : System A E} → Reach start s → IsAwake s
  Reach-IsAwake here = ground arith
  Reach-IsAwake (next m r e) = step-IsAwake m (Reach-IsAwake r) e
