-- ===== src/TaskFuture/Tests.antt =====
-- A promise that delivers, and one that is abandoned.
use egl_utils_cpp.Prelude.{ℕ, ◌≤◌, ◌≡◌, refl, true, false, some, List, [], ◌∷◌}
use egl_utils_cpp.TaskFuture.{
  value, Answer, done, logic_error, broken, got, Pair, Call, set_value, set_exception, destroy,
  get_future, get, fresh, take, call,
}
use egl_utils_cpp.TaskFuture.Steps.{first_outcome}
use egl_utils_cpp.TaskFuture.Delivery.{run, deliveries, first_delivered, get_delivers}
use egl_utils_cpp.TaskFuture.System.{
  System, Reach, here, next, start, step, decide, call_wait, notify_all,
}
use egl_utils_cpp.TaskFuture.Wakeup.{IsAwake, Reach-IsAwake}

abbrev calls : List (Call ℕ ℕ)
calls = get_future ∷ set_value 5 ∷ set_exception (some 1) ∷ destroy ∷ []

abbrev answers : List (Answer ℕ ℕ)
answers = done ∷ done ∷ logic_error ∷ done ∷ []

abbrev last : Pair ℕ ℕ
last = record {
  state = record { result = value 5; abandoned = false };
  owned = false;
  future_retrieved = true;
  valid = true;
}

ran : run calls fresh ≡ some (answers, last)
unfolding run call
ran = refl

first_delivered_example : (take last.state ≡ first_outcome calls) × (deliveries answers ≤ 1)
first_delivered_example = first_delivered calls answers last ran

get_delivers_example :
    (call get last ≡ some (got 5, record last { valid = false }))
    × (call get (record last { valid = false }) ≡ some (logic_error, record last { valid = false }))
get_delivers_example = get_delivers calls answers last (got 5) ran refl refl

abandoned : first_outcome {A = ℕ} {E = ℕ} (get_future ∷ destroy ∷ []) ≡ some broken
abandoned = refl

-- A thread sleeps, the promise delivers, and is on its way to notify.
abbrev told : System ℕ ℕ
told = record {
  state = record { result = value 5; abandoned = false };
  asleep = 1;
  woken = 0;
  notifying = 1;
  answered = 0;
  timed_out = 0;
}

told-Reach : Reach start told
unfolding step
told-Reach = next (decide 5) (next call_wait here refl) refl

Reach-IsAwake_example : IsAwake told
Reach-IsAwake_example = Reach-IsAwake told-Reach

woken_up : step notify_all told ≡ some (record told { asleep = 0; woken = 1; notifying = 0 })
unfolding step
woken_up = refl
