-- ===== src/TaskFuture.antt =====
-- src/main/cpp/it/d4np/util/task_future.hpp: `SharedTaskState`, and a `TaskPromise` with its `TaskFuture`.
-- A critical section is one step.
pub mod Steps
pub mod System
pub mod Wakeup
pub mod Delivery
mod Tests
use egl_utils_cpp.Prelude.{Bool, true, false, not, ◌&&◌, ◌||◌, Option, none, some, if◌then◌else◌}

-- `result_`, a variant.
pub data Result (A E : Type 0) : Type 0 where
  unset : Result A E
  value : A → Result A E
  exception : E → Result A E

pub record SharedTaskState (A E : Type 0) : Type 0 where
  pub result : Result A E
  pub abandoned : Bool

-- What a call gives back or throws; `broken` is `BrokenTaskPromise`.
pub data Answer (A E : Type 0) : Type 0 where
  done logic_error invalid_argument broken : Answer A E
  got : A → Answer A E
  rethrown : E → Answer A E

-- A promise and the future that it gave away: `owned` and `valid` tell whether their pointers to the
-- shared state are set.
pub record Pair (A E : Type 0) : Type 0 where
  pub state : SharedTaskState A E
  pub owned : Bool
  pub future_retrieved : Bool
  pub valid : Bool

pub data Call (A E : Type 0) : Type 0 where
  set_value : A → Call A E
  -- a null `std::exception_ptr` is `none`
  set_exception : Option E → Call A E
  -- the destructor of the promise, or a move assignment to it
  destroy : Call A E
  get_future : Call A E
  get : Call A E

module _ {A E : Type 0} where
  abbrev pub is_set : Result A E → Bool
  is_set unset = false
  is_set _ = true

  abbrev pub has_outcome : SharedTaskState A E → Bool
  has_outcome s = is_set s.result || s.abandoned

  -- `ensure_unset`, and the result.
  abbrev pub put : Result A E → SharedTaskState A E → Answer A E × SharedTaskState A E
  put r s = if has_outcome s then (logic_error, s) else (done, record s { result = r })

  abbrev pub abandon : SharedTaskState A E → SharedTaskState A E
  abandon s = if not (is_set s.result) && not s.abandoned then record s { abandoned = true } else s

  -- `get` of the shared state, or `none` while it waits. The source moves the value out and leaves a
  -- moved-from one in `result_`. The model leaves the value: `get` also resets the future, after which
  -- no call reads it.
  abbrev pub take : SharedTaskState A E → Option (Answer A E)
  take s =
      if has_outcome s
      then elim (s.result) [
        | exception e ↦ some (rethrown e)
        | unset ↦ some broken
        | value a ↦ (if s.abandoned then some broken else some (got a))
      ]
      else none

  abbrev pub fresh : Pair A E
  fresh = record {
    state = record { result = unset; abandoned = false };
    owned = true;
    future_retrieved = false;
    valid = false;
  }

  abbrev pub deliver : Result A E → Pair A E → Answer A E × Pair A E
  deliver r w =
      if w.owned
      then (let (answer, s) = put r w.state in (answer, record w { state = s }))
      else (logic_error, w)

  -- A call of either end; `none` while it waits.
  unfoldable pub call : Call A E → Pair A E → Option (Answer A E × Pair A E)
  call (set_value a) w = some (deliver (value a) w)
  call (set_exception none) w = some (invalid_argument, w)
  call (set_exception (some e)) w = some (deliver (exception e) w)
  call destroy w =
      some
        (done, record w { state = (if w.owned then abandon w.state else w.state); owned = false })
  call get_future w = some (
      if not w.owned || w.future_retrieved
      then (logic_error, w)
      else (done, record w { future_retrieved = true; valid = true }))
  call get w =
      if w.valid
      then elim (take w.state) [
        | none ↦ none
        | some answer ↦ some (answer, record w { valid = false })
      ]
      else some (logic_error, w)
