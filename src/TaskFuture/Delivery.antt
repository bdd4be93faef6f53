-- ===== src/TaskFuture/Delivery.antt =====
-- What the future delivers.
use egl_utils_cpp.Prelude.{
  ℕ, ◌+◌, ◌≤◌, ◌≡◌, refl, sym, ap, ◌∙◌, subst, true, false, Option, none, some, List, [], ◌∷◌,
  if◌then◌else◌, Option-cases, inl, inr, arith,
}
use egl_utils_cpp.TaskFuture.{Answer, logic_error, Pair, Call, get, fresh, take, call}
use egl_utils_cpp.TaskFuture.Steps.{
  number, number_le, first_outcome, is_delivery, or_else, IsSound, After, call-After,
}

module _ {A E : Type 0} where
  -- The calls of a run with their answers, the first one first.
  unfoldable pub run : List (Call A E) → Pair A E → Option (List (Answer A E) × Pair A E)
  run [] w = some ([], w)
  run (c ∷ cs) w = elim (call c w) [
    | none ↦ none
    | some (answer, w') ↦ elim (run cs w') [
      | none ↦ none
      | some (answers, w'') ↦ some (answer ∷ answers, w'')
    ]
  ]

  abbrev pub deliveries : List (Answer A E) → ℕ
  deliveries [] = 0
  deliveries (x ∷ xs) = is_delivery x + deliveries xs

  abbrev Ran : List (Call A E) → Pair A E → Option (List (Answer A E) × Pair A E) → Type 0
  Ran cs w none = Unit {0}
  Ran cs w (some (answers, w')) =
      (or_else (take w.state) (first_outcome cs) ≡ take w'.state)
      × (deliveries answers + number w'.valid + number w.future_retrieved
          ≤ number w.valid + number w'.future_retrieved)

  or_else-none : (o : Option (Answer A E)) → or_else o none ≡ o
  or_else-none none = refl
  or_else-none (some x) = refl

  run-Ran : (cs : List (Call A E)) (w : Pair A E) → IsSound w → Ran cs w (run cs w)
  unfolding run
  run-Ran [] w h = (or_else-none (take w.state), omega arith)
  run-Ran (c ∷ cs) w h = elim (Option-cases (call c w)) [
    | inl e ↦ rw (run, e) tt
    | inr ((answer, w'), e) ↦
        let (outcome, count, sound) = subst (After c cs w) e (call-After c cs w h) in
        let more = run-Ran cs w' sound in
        elim (Option-cases (run cs w')) [
          | inl f ↦ rw (run, e, f) tt
          | inr ((answers, w''), f) ↦
              let (outcome', count') = subst (Ran cs w') f more in
              rw (run, e, f) (outcome ∙ outcome', omega arith)
        ]
  ]

  abbrev after_take : Pair A E → Option (Answer A E) → Option (Answer A E × Pair A E)
  after_take w none = none
  after_take w (some answer) = some (answer, record w { valid = false })

  got_by :
      (w : Pair A E) (outcome : Answer A E)
      → w.valid ≡ true
      → take w.state ≡ some outcome
      → call get w ≡ some (outcome, record w { valid = false })
  unfolding call
  got_by w outcome valid held =
      ap (λ b. if b then after_take w (take w.state) else some (logic_error, w)) valid
      ∙ ap (after_take w) held

  -- After any calls of a promise and its future that do not wait, the state holds the first of the
  -- outcomes that the calls decide, and nothing if they decide none: what is set later, and the end
  -- of a promise that has delivered, change nothing. At most one of the answers delivers an outcome.
  pub first_delivered :
      (cs : List (Call A E)) (answers : List (Answer A E)) (w : Pair A E)
      → run cs fresh ≡ some (answers, w)
      → (take w.state ≡ first_outcome cs) × (deliveries answers ≤ 1)
  first_delivered cs answers w h =
      let start : IsSound (fresh {A = A} {E = E}) = λ k. absurd (cc) in
      let (outcome, count) = subst (Ran cs fresh) h (run-Ran cs fresh start) in
      let small = number_le w.future_retrieved in (sym outcome, omega arith)

  -- After any calls of a promise and its future that do not wait, if one has decided an outcome and the
  -- future is valid, `get` does not wait: it delivers that outcome and invalidates the future, so that
  -- a second `get` is a logic error.
  pub get_delivers :
      (cs : List (Call A E)) (answers : List (Answer A E)) (w : Pair A E) (outcome : Answer A E)
      → run cs fresh ≡ some (answers, w)
      → w.valid ≡ true
      → first_outcome cs ≡ some outcome
      → (call get w ≡ some (outcome, record w { valid = false }))
        × (call get (record w { valid = false }) ≡ some (logic_error, record w { valid = false }))
  unfolding call
  get_delivers cs answers w outcome h valid decided =
      let (held, count) = first_delivered cs answers w h in
      (got_by w outcome valid (held ∙ decided), refl)
