-- ===== src/TaskFuture/System.antt =====
-- task_future.hpp: a shared state with the threads that wait for its outcome and those that decide
-- it, in any interleaving of their critical sections and notifications. Threads of one phase are
-- interchangeable, so the system counts them.
use egl_utils_cpp.Prelude.{
  ℕ, ◌+◌, ◌-◌, ◌≡◌, false, not, ◌&&◌, Option, none, some, ltb, if◌then◌else◌,
}
use egl_utils_cpp.TaskFuture.{
  Result, unset, value, exception, SharedTaskState, has_outcome, is_set, put, abandon,
}

-- `answered` counts the waits that have ended with an outcome, and `timed_out` those that have ended
-- without one.
pub record System (A E : Type 0) : Type 0 where
  pub state : SharedTaskState A E
  pub asleep : ℕ
  pub woken : ℕ
  pub notifying : ℕ
  pub answered : ℕ
  pub timed_out : ℕ

pub data Move (A E : Type 0) : Type 0 where
  -- `set_value` and `set_exception`, up to the end of the critical section
  decide : A → Move A E
  fail : E → Move A E
  -- the promise dies
  abandons : Move A E
  notify_all : Move A E
  -- `wait`, `wait_for`, `wait_until` and the wait of `get`, from the test of the predicate on
  call_wait : Move A E
  -- a sleeper wakes without a notification, or at its deadline
  waiter_wakes : Move A E
  -- a woken thread tests the predicate, and returns or sleeps again
  waiter_tests : Move A E
  -- ... or, past its deadline, returns what the predicate says
  waiter_times_out : Move A E

module _ {A E : Type 0} where
  abbrev pub start : System A E
  start = record {
    state = record { result = unset; abandoned = false };
    asleep = 0;
    woken = 0;
    notifying = 0;
    answered = 0;
    timed_out = 0;
  }

  abbrev when : ℕ → System A E → Option (System A E)
  when threads t = if ltb 0 threads then some t else none

  -- Behind `ensure_unset`, which throws before the notification.
  unfoldable pub decided : Result A E → System A E → System A E
  decided r s =
      if has_outcome s.state
      then s
      else record s { state = (put r s.state).1; notifying = s.notifying + 1 }

  unfoldable pub abandoned_by : System A E → System A E
  abandoned_by s =
      if not (is_set s.state.result) && not s.state.abandoned
      then record s { state = abandon s.state; notifying = s.notifying + 1 }
      else s

  unfoldable pub step : Move A E → System A E → Option (System A E)
  unfolding decided abandoned_by
  step (decide a) s = some (decided (value a) s)
  step (fail e) s = some (decided (exception e) s)
  step abandons s = some (abandoned_by s)
  step notify_all s =
      when s.notifying
        (record s { notifying = s.notifying - 1; asleep = 0; woken = s.woken + s.asleep })
  step call_wait s = some (
      if has_outcome s.state
      then record s { answered = s.answered + 1 }
      else record s { asleep = s.asleep + 1 })
  step waiter_wakes s = when s.asleep (record s { asleep = s.asleep - 1; woken = s.woken + 1 })
  step waiter_tests s = when s.woken (
      if has_outcome s.state
      then record s { woken = s.woken - 1; answered = s.answered + 1 }
      else record s { woken = s.woken - 1; asleep = s.asleep + 1 })
  step waiter_times_out s = when s.woken (
      if has_outcome s.state
      then record s { woken = s.woken - 1; answered = s.answered + 1 }
      else record s { woken = s.woken - 1; timed_out = s.timed_out + 1 })

  pub data Reach (s : System A E) : System A E → Type 0 where
    here : Reach s s
    next : {t u : System A E} (m : Move A E) → Reach s t → step m t ≡ some u → Reach s u
