-- ===== src/JsonParser/Members.antt =====
-- What each member behind `JsonParser::next` does to the parser: the invariant is kept, and the
-- parser stops or reads on.
use egl_utils_cpp.Prelude.{
  ℕ, ◌+◌, ◌<◌, ◌≡◌, refl, Bool, true, false, Option, none, some, List, [], ◌∷◌, length, length-set,
  arith, ltb, leb, ◌==◌, ◌||◌, if◌then◌else◌, ==_iff,
}
use egl_utils_cpp.JsonParser.Types.{
  JsonToken, begin_object, begin_array, boolean, null_value, depth_exceeded, expected_value,
  end_object, end_array, expected_colon, expected_key, trailing_characters, expected_comma_or_brace,
  trailing_comma_brace, trailing_comma_bracket, expected_comma_or_bracket, unexpected_character,
  JsonEvent, Frame, JsonParser, unread, peek, bump, new_frame, set_top,
}
use egl_utils_cpp.JsonParser.Scan.{skip_whitespace, scan_string, is_digit}
use egl_utils_cpp.JsonParser.Walk.{
  true_text, false_text, null_text, close_frame, open_frame, value_at, start_value, after_key,
  object_key, next_in_object, array_element, next_in_array, next_at_top,
}
use egl_utils_cpp.JsonParser.Inv.{
  IsValid, Moves, length-unread, Steps-trans, Moves-after, skip_whitespace-Steps, peek-lt,
  set_top-Steps, bump-Steps, make_error-Moves, scan_number-Moves, scan_literal-Moves,
  scan_string-Moves,
}

pub if-Moves :
    (b : Bool) {p : JsonParser} (x y : JsonEvent × JsonParser)
    → (b ≡ true → Moves p x.1)
    → (b ≡ false → Moves p y.1)
    → Moves p (if b then x else y).1
if-Moves true x y hx hy = hx refl
if-Moves false x y hx hy = hy refl

close_frame-Moves :
    {p : JsonParser} (token : JsonToken)
    → IsValid p
    → p.pos < length p.source
    → Moves p (close_frame token (bump p)).1
unfolding close_frame
close_frame-Moves token v h = record {
  steps = record {
    source_kept = refl;
    slots_kept = refl;
    onward = omega arith;
    valid = record { pos_in = omega arith; depth_in = omega arith; error_in = v.error_in };
  };
  further = λ run. omega arith;
}

open_frame-Moves :
    {p : JsonParser} (is_object : Bool) (token : JsonToken)
    → IsValid p
    → p.pos < length p.source
    → Moves p (open_frame is_object token p).1
unfolding open_frame
open_frame-Moves {p} is_object token v h =
    let size = length-set p.stack p.depth (new_frame is_object) in
    if-Moves (leb (length p.stack) p.depth) _ _ (λ full. make_error-Moves depth_exceeded v)
      λ room. record {
        steps = record {
          source_kept = refl;
          slots_kept = size;
          onward = omega arith;
          valid = record { pos_in = omega arith; depth_in = ground arith; error_in = v.error_in };
        };
        further = λ run. omega arith;
      }

value_at-Moves :
    {p : JsonParser} (l : List ℕ)
    → IsValid p
    → length l + p.pos ≡ length p.source
    → Moves p (value_at l p).1
unfolding value_at
value_at-Moves [] v h = make_error-Moves expected_value v
value_at-Moves {p} (c ∷ r) v h =
    let there : p.pos < length p.source = omega arith in
    if-Moves (c == b'{') _ _ (λ _. open_frame-Moves true begin_object v there)
      λ _.
        if-Moves (c == b'[') _ _ (λ _. open_frame-Moves false begin_array v there)
          λ _.
            if-Moves (c == b'"') _ _ (λ _. scan_string-Moves v there)
              λ _.
                if-Moves (c == b't') _ _ (λ _. scan_literal-Moves true_text boolean (omega arith) v)
                  λ _.
                    if-Moves (c == b'f') _ _
                      (λ _. scan_literal-Moves false_text boolean (omega arith) v)
                      λ _.
                        if-Moves (c == b'n') _ _
                          (λ _. scan_literal-Moves null_text null_value (omega arith) v)
                          λ _.
                            if-Moves (c == b'-' || is_digit c) _ _ (λ _. scan_number-Moves v)
                              λ _. make_error-Moves unexpected_character v

pub start_value-Moves : {p : JsonParser} → IsValid p → Moves p (start_value p).1
unfolding start_value
start_value-Moves {p} v =
    let q = skip_whitespace p in
    let s = skip_whitespace-Steps v in
    Moves-after s (value_at-Moves (unread q) s.valid (omega (arith, length-unread q)))

after_key-Moves :
    {o p : JsonParser} (frame : Frame) (raw : Option (List ℕ))
    → Moves o p
    → Moves o (after_key frame raw p).1
unfolding after_key
after_key-Moves frame none m = m
after_key-Moves {o} {p} frame (some raw) m =
    let s = skip_whitespace-Steps m.steps.valid in
    let q = skip_whitespace p in
    Moves-after (Steps-trans m.steps s) (
      if-Moves (peek q == b':') _ _
        (λ colon.
          let b =
            bump-Steps s.valid (peek-lt q b':' (omega arith) ((==_iff (peek q) b':').0 colon)) in
          let t = set_top-Steps (record frame { expect_value = true }) b.valid in
          record { steps = Steps-trans b t; further = λ run. omega arith })
        (λ _. make_error-Moves expected_colon s.valid))

object_key-Moves : {p : JsonParser} (frame : Frame) → IsValid p → Moves p (object_key frame p).1
unfolding object_key
object_key-Moves {p} frame v =
    let seen : Frame = record frame { seen_element = true } in
    let t = set_top-Steps seen v in
    let q = set_top p seen in
    Moves-after t (
      if-Moves (peek q == b'"') _ _
        (λ quote. after_key-Moves seen (scan_string q).0 (
          scan_string-Moves t.valid
            (peek-lt q b'"' (omega arith) ((==_iff (peek q) b'"').0 quote))))
        (λ _. make_error-Moves expected_key t.valid))

pub next_in_object-Moves :
    {p : JsonParser} (frame : Frame) → IsValid p → Moves p (next_in_object frame p).1
unfolding next_in_object
next_in_object-Moves {p} frame v =
    let s = skip_whitespace-Steps v in
    let q = skip_whitespace p in
    if-Moves frame.expect_value _ _
      (λ _.
        let t = set_top-Steps (record frame { expect_value = false }) v in
        Moves-after t (start_value-Moves t.valid))
      λ _. Moves-after s (
        if-Moves (peek q == b'}') _ _
          (λ brace.
            close_frame-Moves end_object s.valid
              (peek-lt q b'}' (omega arith) ((==_iff (peek q) b'}').0 brace)))
          λ _.
            if-Moves frame.seen_element _ _
              (λ _.
                if-Moves (peek q == b',') _ _
                  (λ comma.
                    let b =
                      bump-Steps s.valid
                        (peek-lt q b',' (omega arith) ((==_iff (peek q) b',').0 comma)) in
                    let u = skip_whitespace-Steps b.valid in
                    Moves-after (Steps-trans b u) (
                      if-Moves (peek (skip_whitespace (bump q)) == b'}') _ _
                        (λ _. make_error-Moves trailing_comma_brace u.valid)
                        (λ _. object_key-Moves frame u.valid)))
                  (λ _. make_error-Moves expected_comma_or_brace s.valid))
              (λ _. object_key-Moves frame s.valid))

array_element-Moves :
    {p : JsonParser} (frame : Frame) → IsValid p → Moves p (array_element frame p).1
unfolding array_element
array_element-Moves frame v =
    let t = set_top-Steps (record frame { seen_element = true }) v in
    Moves-after t (start_value-Moves t.valid)

pub next_in_array-Moves :
    {p : JsonParser} (frame : Frame) → IsValid p → Moves p (next_in_array frame p).1
unfolding next_in_array
next_in_array-Moves {p} frame v =
    let s = skip_whitespace-Steps v in
    let q = skip_whitespace p in
    Moves-after s (
      if-Moves (peek q == b']') _ _
        (λ bracket.
          close_frame-Moves end_array s.valid
            (peek-lt q b']' (omega arith) ((==_iff (peek q) b']').0 bracket)))
        λ _.
          if-Moves frame.seen_element _ _
            (λ _.
              if-Moves (peek q == b',') _ _
                (λ comma.
                  let b =
                    bump-Steps s.valid
                      (peek-lt q b',' (omega arith) ((==_iff (peek q) b',').0 comma)) in
                  let u = skip_whitespace-Steps b.valid in
                  Moves-after (Steps-trans b u) (
                    if-Moves (peek (skip_whitespace (bump q)) == b']') _ _
                      (λ _. make_error-Moves trailing_comma_bracket u.valid)
                      (λ _. array_element-Moves frame u.valid)))
                (λ _. make_error-Moves expected_comma_or_bracket s.valid))
            (λ _. array_element-Moves frame s.valid))

pub next_at_top-Moves : {p : JsonParser} → IsValid p → Moves p (next_at_top p).1
unfolding next_at_top
next_at_top-Moves {p} v =
    let s = skip_whitespace-Steps v in
    if-Moves p.top_level_started _ _
      (λ _. Moves-after s (
        if-Moves (ltb (skip_whitespace p).pos (length (skip_whitespace p).source)) _ _
          (λ _. make_error-Moves trailing_characters s.valid)
          (λ _. record {
            steps = record {
              source_kept = refl;
              slots_kept = refl;
              onward = omega arith;
              valid = record {
                pos_in = s.valid.pos_in;
                depth_in = s.valid.depth_in;
                error_in = s.valid.error_in;
              };
            };
            further = λ run. cc;
          })))
      (λ _.
        Moves-after {q = record p { top_level_started = true }}
          record {
            source_kept = refl;
            slots_kept = refl;
            onward = omega arith;
            valid = record { pos_in = v.pos_in; depth_in = v.depth_in; error_in = v.error_in };
          }
          (start_value-Moves
            (record { pos_in = v.pos_in; depth_in = v.depth_in; error_in = v.error_in })))
