-- ===== src/JsonParser/Walk.antt =====
-- `JsonParser::next` and the members that it dispatches to.
use egl_utils_cpp.Prelude.{
  ℕ, zero, suc, ◌+◌, ◌-◌, Bool, true, false, ◌||◌, Option, none, some, List, [], ◌∷◌, length, set,
  ltb, leb, ◌==◌, if◌then◌else◌,
}
use egl_utils_cpp.JsonParser.Types.{
  JsonToken, begin_object, end_object, begin_array, end_array, key, string, boolean, null_value,
  end, error, JsonEvent, trailing_characters, expected_comma_or_brace, trailing_comma_brace,
  expected_key, expected_colon, expected_comma_or_bracket, trailing_comma_bracket, expected_value,
  unexpected_character, depth_exceeded, State, running, finished, errored, Frame, new_frame,
  JsonParser, unread, peek, bump, event, make_error, top_frame, set_top, done,
}
use egl_utils_cpp.JsonParser.Scan.{
  is_digit, skip_whitespace, scan_number, scan_literal, scan_string,
}

abbrev pub Outcome : Type 0
Outcome = JsonEvent × JsonParser

-- The closing brace or bracket has been passed.
unfoldable pub close_frame : JsonToken → JsonParser → Outcome
close_frame token p = (event token [], record p { depth = p.depth - 1 })

-- `MaxDepth` is the length of the stack.
unfoldable pub open_frame : Bool → JsonToken → JsonParser → Outcome
open_frame is_object token p =
    if leb (length p.stack) p.depth then make_error depth_exceeded p else (
      event token [],
      record p {
        pos = p.pos + 1;
        stack = set p.stack p.depth (new_frame is_object);
        depth = p.depth + 1;
      },
    )

pub string_event : JsonToken → Option (List ℕ) → JsonEvent
string_event token none = event error []
string_event token (some raw) = event token raw

abbrev pub true_text : List ℕ
true_text = b't' ∷ b'r' ∷ b'u' ∷ b'e' ∷ []

abbrev pub false_text : List ℕ
false_text = b'f' ∷ b'a' ∷ b'l' ∷ b's' ∷ b'e' ∷ []

abbrev pub null_text : List ℕ
null_text = b'n' ∷ b'u' ∷ b'l' ∷ b'l' ∷ []

-- The `switch` on the first byte of a value; `[]` is the end of the input.
unfoldable pub value_at : List ℕ → JsonParser → Outcome
value_at [] p = make_error expected_value p
value_at (c ∷ r) p =
    if c == b'{'
    then open_frame true begin_object p
    else if c == b'['
    then open_frame false begin_array p
    else if c == b'"'
    then (let (raw, q) = scan_string p in (string_event string raw, q))
    else if c == b't'
    then scan_literal true_text boolean p
    else if c == b'f'
    then scan_literal false_text boolean p
    else if c == b'n'
    then scan_literal null_text null_value p
    else if c == b'-' || is_digit c
    then scan_number p
    else make_error unexpected_character p

unfoldable pub start_value : JsonParser → Outcome
start_value p = let q = skip_whitespace p in value_at (unread q) q

-- The `:` after a key.
unfoldable pub after_key : Frame → Option (List ℕ) → JsonParser → Outcome
after_key frame none p = (event error [], p)
after_key frame (some raw) p =
    let q = skip_whitespace p in
    if peek q == b':'
    then (event key raw, set_top (bump q) (record frame { expect_value = true }))
    else make_error expected_colon q

-- From `frame.seen_element = true` on.
unfoldable pub object_key : Frame → JsonParser → Outcome
object_key frame p =
    let seen : Frame = record frame { seen_element = true } in
    let q = set_top p seen in
    if peek q == b'"'
    then (let (raw, r) = scan_string q in after_key seen raw r)
    else make_error expected_key q

unfoldable pub next_in_object : Frame → JsonParser → Outcome
next_in_object frame p =
    if frame.expect_value
    then start_value (set_top p (record frame { expect_value = false }))
    else (let q = skip_whitespace p in
        if peek q == b'}'
        then close_frame end_object (bump q)
        else if frame.seen_element
        then (if peek q == b','
            then (let r = skip_whitespace (bump q) in
                if peek r == b'}' then make_error trailing_comma_brace r else object_key frame r)
            else make_error expected_comma_or_brace q)
        else object_key frame q)

-- From `frame.seen_element = true` on.
unfoldable pub array_element : Frame → JsonParser → Outcome
array_element frame p = start_value (set_top p (record frame { seen_element = true }))

unfoldable pub next_in_array : Frame → JsonParser → Outcome
next_in_array frame p =
    let q = skip_whitespace p in
    if peek q == b']'
    then close_frame end_array (bump q)
    else if frame.seen_element
    then (if peek q == b','
        then (let r = skip_whitespace (bump q) in
            if peek r == b']' then make_error trailing_comma_bracket r else array_element frame r)
        else make_error expected_comma_or_bracket q)
    else array_element frame q

-- At depth 0: the single value of the document, then only whitespace.
unfoldable pub next_at_top : JsonParser → Outcome
next_at_top p =
    if p.top_level_started
    then (let q = skip_whitespace p in
        if ltb q.pos (length q.source)
        then make_error trailing_characters q
        else (event end [], record q { state = finished }))
    else start_value (record p { top_level_started = true })

unfoldable pub next_running : JsonParser → Outcome
next_running p =
    if p.depth == 0
    then next_at_top p
    else if (top_frame p).is_object
    then next_in_object (top_frame p) p
    else next_in_array (top_frame p) p

unfoldable pub next_by : State → JsonParser → Outcome
next_by errored p = (event error [], p)
next_by finished p = (event end [], p)
next_by running p = next_running p

unfoldable pub next : JsonParser → Outcome
unfolding next_by
next p = next_by p.state p

-- A client that pulls events until the parser is done; the fuel counts calls of `next`.
unfoldable pub walk : ℕ → JsonParser → List JsonEvent × JsonParser
walk zero p = ([], p)
walk (suc fuel) p =
    let (e, q) = next p in
    let rest : List JsonEvent × JsonParser = walk fuel q in
    if done q then (e ∷ [], q) else (let (es, r) = rest in (e ∷ es, r))
