-- ===== src/TaskFuture/Steps.antt =====
-- What one call does to the outcome of a promise, and to what the future has delivered.
use egl_utils_cpp.Prelude.{
  ℕ, ◌+◌, ◌≤◌, ◌≡◌, refl, Bool, true, false, Option, none, some, List, [], ◌∷◌, arith,
}
use egl_utils_cpp.TaskFuture.{
  Result, unset, value, exception, Answer, broken, got, rethrown, Pair, Call, set_value,
  set_exception, destroy, get_future, get, take, has_outcome, call,
}

abbrev pub number : Bool → ℕ
number true = 1
number false = 0

pub number_le : (b : Bool) → number b ≤ 1
number_le true = omega arith
number_le false = omega arith

module _ {A E : Type 0} where
  -- The outcome that the calls decide: the first value or exception, or the end of the promise.
  abbrev pub first_outcome : List (Call A E) → Option (Answer A E)
  first_outcome [] = none
  first_outcome (set_value a ∷ cs) = some (got a)
  first_outcome (set_exception (some e) ∷ cs) = some (rethrown e)
  first_outcome (set_exception none ∷ cs) = first_outcome cs
  first_outcome (destroy ∷ cs) = some broken
  first_outcome (get_future ∷ cs) = first_outcome cs
  first_outcome (get ∷ cs) = first_outcome cs

  -- How many answers deliver an outcome.
  abbrev pub is_delivery : Answer A E → ℕ
  is_delivery (got a) = 1
  is_delivery (rethrown e) = 1
  is_delivery broken = 1
  is_delivery _ = 0

  -- An outcome that is decided already stays.
  abbrev pub or_else : Option (Answer A E) → Option (Answer A E) → Option (Answer A E)
  or_else none y = y
  or_else (some x) y = some x

  -- A promise that is gone has left an outcome.
  abbrev pub IsSound : Pair A E → Type 0
  IsSound w = w.owned ≡ false → has_outcome w.state ≡ true

  abbrev pub After : Call A E → List (Call A E) → Pair A E → Option (Answer A E × Pair A E) → Type 0
  After c cs w none = Unit {0}
  After c cs w (some (answer, w')) =
      (or_else (take w.state) (first_outcome (c ∷ cs)) ≡ or_else (take w'.state) (first_outcome cs))
      × (is_delivery answer + number w'.valid + number w.future_retrieved
          ≤ number w.valid + number w'.future_retrieved)
      × IsSound w'

  abbrev pair : Result A E → Bool → Bool → Bool → Bool → Pair A E
  pair r abandoned owned retrieved valid = record {
    state = record { result = r; abandoned = abandoned };
    owned = owned;
    future_retrieved = retrieved;
    valid = valid;
  }

  set_value-After :
      (a : A) (cs : List (Call A E)) (r : Result A E) (abandoned owned retrieved valid : Bool)
      → IsSound (pair r abandoned owned retrieved valid)
      → After
          (set_value a)
          cs
          (pair r abandoned owned retrieved valid)
          (call (set_value a) (pair r abandoned owned retrieved valid))
  unfolding call
  set_value-After a cs unset true true re v h = (refl, omega arith, λ k. absurd (cc))
  set_value-After a cs unset true false re v h = (refl, omega arith, h)
  set_value-After a cs unset false true re v h = (refl, omega arith, λ k. absurd (cc))
  set_value-After a cs unset false false re v h = absurd (let c = h refl in cc)
  set_value-After a cs (value x) true true re v h = (refl, omega arith, λ k. absurd (cc))
  set_value-After a cs (value x) true false re v h = (refl, omega arith, h)
  set_value-After a cs (value x) false true re v h = (refl, omega arith, λ k. absurd (cc))
  set_value-After a cs (value x) false false re v h = (refl, omega arith, h)
  set_value-After a cs (exception x) true true re v h = (refl, omega arith, λ k. absurd (cc))
  set_value-After a cs (exception x) true false re v h = (refl, omega arith, h)
  set_value-After a cs (exception x) false true re v h = (refl, omega arith, λ k. absurd (cc))
  set_value-After a cs (exception x) false false re v h = (refl, omega arith, h)

  set_exception-After :
      (e : E) (cs : List (Call A E)) (r : Result A E) (abandoned owned retrieved valid : Bool)
      → IsSound (pair r abandoned owned retrieved valid)
      → After
          (set_exception (some e))
          cs
          (pair r abandoned owned retrieved valid)
          (call (set_exception (some e)) (pair r abandoned owned retrieved valid))
  unfolding call
  set_exception-After e cs unset true true re v h = (refl, omega arith, λ k. absurd (cc))
  set_exception-After e cs unset true false re v h = (refl, omega arith, h)
  set_exception-After e cs unset false true re v h = (refl, omega arith, λ k. absurd (cc))
  set_exception-After e cs unset false false re v h = absurd (let c = h refl in cc)
  set_exception-After e cs (value x) true true re v h = (refl, omega arith, λ k. absurd (cc))
  set_exception-After e cs (value x) true false re v h = (refl, omega arith, h)
  set_exception-After e cs (value x) false true re v h = (refl, omega arith, λ k. absurd (cc))
  set_exception-After e cs (value x) false false re v h = (refl, omega arith, h)
  set_exception-After e cs (exception x) true true re v h = (refl, omega arith, λ k. absurd (cc))
  set_exception-After e cs (exception x) true false re v h = (refl, omega arith, h)
  set_exception-After e cs (exception x) false true re v h = (refl, omega arith, λ k. absurd (cc))
  set_exception-After e cs (exception x) false false re v h = (refl, omega arith, h)

  destroy-After :
      (cs : List (Call A E)) (r : Result A E) (abandoned owned retrieved valid : Bool)
      → IsSound (pair r abandoned owned retrieved valid)
      → After destroy cs
          (pair r abandoned owned retrieved valid)
          (call destroy (pair r abandoned owned retrieved valid))
  unfolding call
  destroy-After cs unset true true re v h = (refl, omega arith, λ k. refl)
  destroy-After cs unset true false re v h = (refl, omega arith, λ k. refl)
  destroy-After cs unset false true re v h = (refl, omega arith, λ k. refl)
  destroy-After cs unset false false re v h = absurd (let c = h refl in cc)
  destroy-After cs (value x) true true re v h = (refl, omega arith, λ k. refl)
  destroy-After cs (value x) true false re v h = (refl, omega arith, λ k. refl)
  destroy-After cs (value x) false true re v h = (refl, omega arith, λ k. refl)
  destroy-After cs (value x) false false re v h = (refl, omega arith, λ k. refl)
  destroy-After cs (exception x) true true re v h = (refl, omega arith, λ k. refl)
  destroy-After cs (exception x) true false re v h = (refl, omega arith, λ k. refl)
  destroy-After cs (exception x) false true re v h = (refl, omega arith, λ k. refl)
  destroy-After cs (exception x) false false re v h = (refl, omega arith, λ k. refl)

  get_future-After :
      (cs : List (Call A E)) (r : Result A E) (abandoned owned retrieved valid : Bool)
      → IsSound (pair r abandoned owned retrieved valid)
      → After get_future cs
          (pair r abandoned owned retrieved valid)
          (call get_future (pair r abandoned owned retrieved valid))
  unfolding call
  get_future-After cs r ab true true true h = (refl, omega arith, h)
  get_future-After cs r ab true true false h = (refl, omega arith, h)
  get_future-After cs r ab true false true h = (refl, omega arith, h)
  get_future-After cs r ab true false false h = (refl, omega arith, h)
  get_future-After cs r ab false true true h = (refl, omega arith, h)
  get_future-After cs r ab false true false h = (refl, omega arith, h)
  get_future-After cs r ab false false true h = (refl, omega arith, h)
  get_future-After cs r ab false false false h = (refl, omega arith, h)

  get-After :
      (cs : List (Call A E)) (r : Result A E) (abandoned owned retrieved valid : Bool)
      → IsSound (pair r abandoned owned retrieved valid)
      → After get cs
          (pair r abandoned owned retrieved valid)
          (call get (pair r abandoned owned retrieved valid))
  unfolding call
  get-After cs unset true o re true h = (refl, omega arith, h)
  get-After cs unset true o re false h = (refl, omega arith, h)
  get-After cs unset false o re true h = tt
  get-After cs unset false o re false h = (refl, omega arith, h)
  get-After cs (value x) true o re true h = (refl, omega arith, h)
  get-After cs (value x) true o re false h = (refl, omega arith, h)
  get-After cs (value x) false o re true h = (refl, omega arith, h)
  get-After cs (value x) false o re false h = (refl, omega arith, h)
  get-After cs (exception x) true o re true h = (refl, omega arith, h)
  get-After cs (exception x) true o re false h = (refl, omega arith, h)
  get-After cs (exception x) false o re true h = (refl, omega arith, h)
  get-After cs (exception x) false o re false h = (refl, omega arith, h)

  pub call-After :
      (c : Call A E) (cs : List (Call A E)) (w : Pair A E) → IsSound w → After c cs w (call c w)
  unfolding call
  call-After (set_value a) cs w h =
      set_value-After a cs w.state.result w.state.abandoned w.owned w.future_retrieved w.valid h
  call-After (set_exception none) cs w h = (refl, omega arith, h)
  call-After (set_exception (some e)) cs w h =
      set_exception-After e cs w.state.result w.state.abandoned w.owned w.future_retrieved w.valid h
  call-After destroy cs w h =
      destroy-After cs w.state.result w.state.abandoned w.owned w.future_retrieved w.valid h
  call-After get_future cs w h =
      get_future-After cs w.state.result w.state.abandoned w.owned w.future_retrieved w.valid h
  call-After get cs w h =
      get-After cs w.state.result w.state.abandoned w.owned w.future_retrieved w.valid h
