-- ===== src/JsonParser/Types.antt =====
-- The events and the state of `JsonParser`.
use egl_utils_cpp.Prelude.{
  ℕ, ◌+◌, ◌-◌, Bool, true, false, Option, none, some, List, [], ◌∷◌, get_elem?, set, replicate,
  drop,
}

pub data JsonToken : Type 0 where
  begin_object end_object begin_array end_array : JsonToken
  key string number boolean null_value : JsonToken
  end error : JsonToken

pub record JsonEvent : Type 0 where
  pub token : JsonToken
  pub text : List ℕ

-- The texts that `make_error` is given; `no_message` is the empty `error_message_` of a parser
-- that has met no error.
pub data ErrorMessage : Type 0 where
  no_message : ErrorMessage
  trailing_characters : ErrorMessage
  expected_comma_or_brace trailing_comma_brace expected_key expected_colon : ErrorMessage
  expected_comma_or_bracket trailing_comma_bracket : ErrorMessage
  expected_value unexpected_character depth_exceeded : ErrorMessage
  control_character unterminated_string unterminated_escape : ErrorMessage
  invalid_unicode_escape invalid_escape : ErrorMessage
  number_needs_digit fraction_needs_digit exponent_needs_digit invalid_literal : ErrorMessage

pub data State : Type 0 where
  running finished errored : State

pub record Frame : Type 0 where
  pub is_object : Bool
  pub seen_element : Bool
  pub expect_value : Bool

abbrev pub new_frame : Bool → Frame
new_frame is_object = record { is_object = is_object; seen_element = false; expect_value = false }

-- `source` holds the bytes of the `std::string_view`, and `stack` the `MaxDepth` frames.
pub record JsonParser : Type 0 where
  pub source : List ℕ
  pub pos : ℕ
  pub stack : List Frame
  pub depth : ℕ
  pub top_level_started : Bool
  pub state : State
  pub error_message : ErrorMessage
  pub error_offset : ℕ

-- `JsonParser<max_depth>(source)`.
abbrev pub create : ℕ → List ℕ → JsonParser
create max_depth source = record {
  source = source;
  pos = 0;
  stack = replicate max_depth (new_frame false);
  depth = 0;
  top_level_started = false;
  state = running;
  error_message = no_message;
  error_offset = 0;
}

abbrev pub done : JsonParser → Bool
done p = elim p.state [ running ↦ false | finished ↦ true | errored ↦ true ]

abbrev pub failed : JsonParser → Bool
failed p = elim p.state [ running ↦ false | finished ↦ false | errored ↦ true ]

-- `source_[pos_..)`: the bytes that are still to be read.
abbrev pub unread : JsonParser → List ℕ
unread p = drop p.pos p.source

abbrev pub first_or_nul : List ℕ → ℕ
first_or_nul [] = 0
first_or_nul (c ∷ r) = c

-- The current character, or NUL at the end of the input.
abbrev pub peek : JsonParser → ℕ
peek p = first_or_nul (unread p)

-- `++pos_`, which runs only where `pos_ < source_.size()`, so that it cannot wrap.
abbrev pub bump : JsonParser → JsonParser
bump p = record p { pos = p.pos + 1 }

abbrev pub event : JsonToken → List ℕ → JsonEvent
event token text = record { token = token; text = text }

-- The first error is kept.
unfoldable pub latch : ErrorMessage → JsonParser → State → JsonParser
latch text p errored = p
latch text p other = record p { state = errored; error_message = text; error_offset = p.pos }

unfoldable pub make_error : ErrorMessage → JsonParser → JsonEvent × JsonParser
unfolding latch
make_error text p = (event error [], latch text p p.state)

-- `stack_[depth_ - 1]`, which `next` takes only where `depth_` is not 0.
pub frame_or : Option Frame → Frame
frame_or none = new_frame false
frame_or (some f) = f

abbrev pub top_frame : JsonParser → Frame
top_frame p = frame_or (get_elem? p.stack (p.depth - 1))

abbrev pub set_top : JsonParser → Frame → JsonParser
set_top p f = record p { stack = set p.stack (p.depth - 1) f }
