-- ===== src/JsonParser/Progress.antt =====
-- Every call of `JsonParser::next` keeps the invariant and either ends the walk or reads a byte, so
-- a client that pulls events comes to an end.
use egl_utils_cpp.Prelude.{
  ℕ, zero, suc, ◌-◌, ◌<◌, ◌≡◌, ◌≢◌, refl, ap, true, false, List, length, arith, ◌==◌, Bool-cases,
  inl, inr,
}
use egl_utils_cpp.JsonParser.Types.{
  State, running, finished, errored, JsonParser, top_frame, create, done,
}
use egl_utils_cpp.JsonParser.Walk.{next_running, next_by, next, walk}
use egl_utils_cpp.JsonParser.Inv.{IsValid, Steps, Moves, Steps-trans}
use egl_utils_cpp.JsonParser.Members.{
  if-Moves, next_in_object-Moves, next_in_array-Moves, next_at_top-Moves,
}

next_running-Moves : {p : JsonParser} → IsValid p → Moves p (next_running p).1
unfolding next_running
next_running-Moves {p} v =
    if-Moves (p.depth == 0) _ _ (λ _. next_at_top-Moves v)
      λ _.
        if-Moves (top_frame p).is_object _ _ (λ _. next_in_object-Moves (top_frame p) v)
          (λ _. next_in_array-Moves (top_frame p) v)

stopped-Moves : {p : JsonParser} → IsValid p → p.state ≢ running → Moves p p
stopped-Moves v stopped = record {
  steps = record { source_kept = refl; slots_kept = refl; onward = omega arith; valid = v };
  further = λ run. absurd (stopped run);
}

next_by-Moves : {p : JsonParser} (s : State) → p.state ≡ s → IsValid p → Moves p (next_by s p).1
unfolding next_by
next_by-Moves running e v = next_running-Moves v
next_by-Moves finished e v = stopped-Moves v (λ run. cc)
next_by-Moves errored e v = stopped-Moves v (λ run. cc)

-- One call of `next` keeps the invariant, the source and the number of frames, never moves back,
-- and leaves a parser that is done or has read at least one byte more.
pub next-Moves : {p : JsonParser} → IsValid p → Moves p (next p).1
unfolding next
next-Moves {p} v = next_by-Moves p.state refl v

done-running : (p : JsonParser) → done p ≡ false → p.state ≡ running
done-running p h = go p.state refl h
  where
    go :
        (s : State)
        → p.state ≡ s
        → elim s [ running ↦ false | finished ↦ true | errored ↦ true ] ≡ false
        → p.state ≡ running
    go running e h = e
    go finished e h = cc
    go errored e h = cc

-- From a valid parser, with more calls of `next` than unread bytes, the walk comes to its end: the
-- parser is then done, still valid, and over the same source.
pub walk_total :
    (fuel : ℕ) {p : JsonParser}
    → IsValid p
    → length p.source - p.pos < fuel
    → (done (walk fuel p).1 ≡ true) × Steps p (walk fuel p).1
unfolding walk
walk_total zero v h = absurd (omega arith)
walk_total (suc fuel) {p} v h =
    let m = next-Moves v in
    elim (Bool-cases (done (next p).1)) [
      | inl ended ↦ rw ended (ended, m.steps)
      | inr more ↦
          let same = ap length m.steps.source_kept in
          let run = m.further (done-running (next p).1 more) in
          let (ended, s) = walk_total fuel m.steps.valid (omega (arith, same)) in
          rw more (ended, Steps-trans m.steps s)
    ]

-- A fresh parser is valid.
pub create-IsValid : (max_depth : ℕ) (source : List ℕ) → IsValid (create max_depth source)
create-IsValid max_depth source = omega arith
