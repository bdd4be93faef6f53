-- ===== src/JsonParser/Inv.antt =====
-- The invariant of `JsonParser`, and what the scanners do to the state: they never read past the
-- source, never move back, and stop with an error or further on.
use egl_utils_cpp.Prelude.{
  ℕ, ◌+◌, ◌-◌, ◌≤◌, ◌<◌, ◌≡◌, ◌∙◌, refl, true, List, [], ◌∷◌, length, drop, length-set, length-drop,
  arith, Bool-cases, inl, inr,
}
use egl_utils_cpp.JsonParser.Types.{
  JsonToken, ErrorMessage, State, running, finished, errored, Frame, JsonParser, unread, peek,
  first_or_nul, bump, latch, make_error, set_top, invalid_literal, unterminated_string,
}
use egl_utils_cpp.JsonParser.Scan.{
  is_whitespace, skip_whitespace, Part, passed, refused, number_event, number_scanner, scan_number,
  StringScan, closed, broken, unterminated, string_loop, string_result, scan_string, starts_with,
  scan_literal,
}
use egl_utils_cpp.JsonParser.Bounds.{
  span_length-le, Within, number_scanner-IsBounded, StringWithin, string_loop-Within,
}

pub record IsValid (p : JsonParser) : Type 0 where
  pub pos_in : p.pos ≤ length p.source
  pub depth_in : p.depth ≤ length p.stack
  pub error_in : p.error_offset ≤ length p.source

-- From the valid `p` to the valid `q`: the same source and as many frames, and no byte read twice.
pub record Steps (p q : JsonParser) : Type 0 where
  pub source_kept : q.source ≡ p.source
  pub slots_kept : length q.stack ≡ length p.stack
  pub onward : p.pos ≤ q.pos
  pub valid : IsValid q

-- ... and a parser that still runs has read a byte more.
pub record Moves (p q : JsonParser) : Type 0 where
  pub steps : Steps p q
  pub further : q.state ≡ running → p.pos < q.pos

pub Steps-trans : {p q r : JsonParser} → Steps p q → Steps q r → Steps p r
Steps-trans a b = record {
  source_kept = b.source_kept ∙ a.source_kept;
  slots_kept = b.slots_kept ∙ a.slots_kept;
  onward = omega arith;
  valid = b.valid;
}

pub Moves-after : {p q r : JsonParser} → Steps p q → Moves q r → Moves p r
Moves-after a b = record {
  steps = Steps-trans a b.steps;
  further = λ run. let h = b.further run in omega arith;
}

pub length-unread : (p : JsonParser) → length (unread p) ≡ length p.source - p.pos
length-unread p = length-drop p.pos p.source

pub skip_whitespace-Steps : {p : JsonParser} → IsValid p → Steps p (skip_whitespace p)
unfolding skip_whitespace
skip_whitespace-Steps {p} v =
    let fits = span_length-le is_whitespace (unread p) in
    let size = length-unread p in
    record {
      source_kept = refl;
      slots_kept = refl;
      onward = omega arith;
      valid = record { pos_in = omega arith; depth_in = v.depth_in; error_in = v.error_in };
    }

length-first_or_nul : (l : List ℕ) → 0 < first_or_nul l → 0 < length l
length-first_or_nul [] h = h
length-first_or_nul (c ∷ r) h = omega arith

-- A byte other than NUL is there to be passed.
pub peek-lt : (p : JsonParser) (c : ℕ) → 0 < c → peek p ≡ c → p.pos < length p.source
peek-lt p c h e = omega (arith, length-first_or_nul (unread p) (omega arith), length-unread p)

pub set_top-Steps : {p : JsonParser} (f : Frame) → IsValid p → Steps p (set_top p f)
set_top-Steps {p} f v =
    let size = length-set p.stack (p.depth - 1) f in
    record {
      source_kept = refl;
      slots_kept = size;
      onward = omega arith;
      valid = record { pos_in = v.pos_in; depth_in = omega arith; error_in = v.error_in };
    }

pub bump-Steps : {p : JsonParser} → IsValid p → p.pos < length p.source → Steps p (bump p)
bump-Steps v h = record {
  source_kept = refl;
  slots_kept = refl;
  onward = omega arith;
  valid = record { pos_in = omega arith; depth_in = v.depth_in; error_in = v.error_in };
}

latch-Moves :
    {p : JsonParser} (m : ErrorMessage) (s : State)
    → IsValid p
    → p.state ≡ s
    → Moves p (latch m p s)
unfolding latch
latch-Moves m errored v e = record {
  steps = record { source_kept = refl; slots_kept = refl; onward = omega arith; valid = v };
  further = λ run. cc;
}
latch-Moves m running v e = record {
  steps = record {
    source_kept = refl;
    slots_kept = refl;
    onward = omega arith;
    valid = record { pos_in = v.pos_in; depth_in = v.depth_in; error_in = v.pos_in };
  };
  further = λ run. cc;
}
latch-Moves m finished v e = record {
  steps = record {
    source_kept = refl;
    slots_kept = refl;
    onward = omega arith;
    valid = record { pos_in = v.pos_in; depth_in = v.depth_in; error_in = v.pos_in };
  };
  further = λ run. cc;
}

pub make_error-Moves : {p : JsonParser} (m : ErrorMessage) → IsValid p → Moves p (make_error m p).1
unfolding make_error
make_error-Moves {p} m v = latch-Moves m p.state v refl

-- From `p` on by `n` bytes that are there.
pub skip_by-Steps :
    {p : JsonParser} (n : ℕ)
    → IsValid p
    → p.pos + n ≤ length p.source
    → Steps p (record p { pos = p.pos + n })
skip_by-Steps n v h = record {
  source_kept = refl;
  slots_kept = refl;
  onward = omega arith;
  valid = record { pos_in = h; depth_in = v.depth_in; error_in = v.error_in };
}

number_event-Moves :
    {p : JsonParser} (a : Part)
    → IsValid p
    → Within 1 (length p.source - p.pos) a
    → Moves p (number_event p a).1
unfolding number_event
number_event-Moves {p} (passed n) v w = record {
  steps = skip_by-Steps n v (omega arith);
  further = λ run. omega arith;
}
number_event-Moves {p} (refused m n) v w =
    let there = skip_by-Steps {p = p} n v (omega arith) in
    Moves-after there (make_error-Moves m there.valid)

pub scan_number-Moves : {p : JsonParser} → IsValid p → Moves p (scan_number p).1
unfolding scan_number
scan_number-Moves {p} v =
    number_event-Moves (number_scanner (unread p)) v
      (rw (← length-unread p) (number_scanner-IsBounded (unread p)))

starts_with-length : (l s : List ℕ) → starts_with l s ≡ true → length s ≤ length l
unfolding starts_with
starts_with-length l [] h = omega arith
starts_with-length [] (d ∷ s) h = cc
starts_with-length (c ∷ l) (d ∷ s) h = ground (arith, starts_with-length l s)

pub scan_literal-Moves :
    {p : JsonParser} (literal : List ℕ) (token : JsonToken)
    → 0 < length literal
    → IsValid p
    → Moves p (scan_literal literal token p).1
unfolding scan_literal
scan_literal-Moves {p} literal token long v = elim (Bool-cases (starts_with (unread p) literal)) [
  | inl there ↦
      let fits = starts_with-length (unread p) literal there in
      let size = length-unread p in
      rw there (record {
        steps = skip_by-Steps (length literal) v (omega arith);
        further = λ run. omega arith;
      })
  | inr other ↦ rw other (make_error-Moves invalid_literal v)
]

string_result-Moves :
    {p : JsonParser} (l : List ℕ) (a : StringScan)
    → IsValid p
    → length l + 1 ≤ length p.source - p.pos
    → StringWithin (length l) a
    → Moves p (string_result p l a).1
unfolding string_result
string_result-Moves {p} l (closed n) v h w = record {
  steps = record {
    source_kept = refl;
    slots_kept = refl;
    onward = omega arith;
    valid = record { pos_in = omega arith; depth_in = v.depth_in; error_in = v.error_in };
  };
  further = λ run. omega arith;
}
string_result-Moves {p} l (broken m n) v h w =
    let open_passed = skip_by-Steps {p = p} 1 v (omega arith) in
    let there = skip_by-Steps n open_passed.valid (omega arith) in
    Moves-after (Steps-trans open_passed there) (make_error-Moves m there.valid)
string_result-Moves {p} l unterminated v h w = make_error-Moves unterminated_string v

pub scan_string-Moves :
    {p : JsonParser} → IsValid p → p.pos < length p.source → Moves p (scan_string p).1
unfolding scan_string
scan_string-Moves {p} v h =
    let l = drop 1 (unread p) in
    string_result-Moves l (string_loop (length l) l) v
      (omega (arith, length-drop 1 (unread p), length-unread p)) (string_loop-Within (length l) l)
