-- ===== src/CliParser/Parse.antt =====
-- `CliParser::parse`. A run carries the parser, the caller's variables, the tokens behind the current
-- one, and `positional_index`.
use egl_utils_cpp.Prelude.{
  ℕ, ◌+◌, true, false, not, ◌&&◌, Option, none, some, List, [], ◌∷◌, ◌++◌, set, get_elem?, ◌==◌,
  if◌then◌else◌, codes,
}
use egl_utils_cpp.CliParser.Types.{
  unknown_option, missing_value, unexpected_value, invalid_value, missing_required,
  unexpected_positional, ParseResult, success, help_result, failure, OptionSpec, PositionalSpec,
}
use egl_utils_cpp.CliParser.Register.{find_long, find_short}

pub record Run (S : Type 0) : Type 0 where
  pub options : List (OptionSpec S)
  pub positionals : List (PositionalSpec S)
  pub positional_index : ℕ
  pub vars : S
  pub rest : List (List ℕ)

-- The text before the first `=` and, if there is one, the text behind it.
unfoldable pub split_inline : List ℕ → List ℕ × Option (List ℕ)
split_inline [] = ([], none)
split_inline (c ∷ body) =
    let (name, value) = split_inline body in
    if c == b'=' then ([], some body) else (c ∷ name, value)

abbrev pub long_label : List ℕ → List ℕ
long_label name = b'-' ∷ b'-' ∷ name

abbrev pub short_label : ℕ → List ℕ
short_label letter = b'-' ∷ letter ∷ []

abbrev pub Outcome : Type 0 → Type 0
Outcome S = ParseResult × Run S

module _ {S : Type 0} where
  -- The option at place `i` is `o`, and is seen now.
  abbrev pub see_option : ℕ → OptionSpec S → Run S → Run S
  see_option i o r = record r { options = set r.options i (record o { seen = true }) }

  abbrev pub see_positional : ℕ → PositionalSpec S → Run S → Run S
  see_positional i s r = record r { positionals = set r.positionals i (record s { seen = true }) }

  unfoldable pub assign_option : ℕ → OptionSpec S → List ℕ → List ℕ → Run S → Outcome S
  assign_option i o label value r = elim (o.assign value r.vars) [
    | none ↦ (
      failure invalid_value
          (codes "invalid value '" ++ (value ++ (codes "' for option '" ++ (label ++ codes "'")))),
      r,
    )
    | some vars ↦ (success, see_option i o (record r { vars = vars }))
  ]

  -- The value is the next token.
  unfoldable pub assign_next : ℕ → OptionSpec S → List ℕ → Run S → Outcome S
  unfolding assign_option
  assign_next i o label r = elim (r.rest) [
    | [] ↦ (failure missing_value (codes "option '" ++ (label ++ codes "' requires a value")), r)
    | value ∷ rest ↦ assign_option i o label value (record r { rest = rest })
  ]

  unfoldable pub raise_flag : ℕ → OptionSpec S → Run S → Run S
  raise_flag i o r = see_option i o (record r { vars = o.set_flag r.vars })

  unfoldable pub long_option : ℕ → OptionSpec S → Option (List ℕ) → Run S → Outcome S
  unfolding assign_option assign_next raise_flag
  long_option i o inline r =
      if o.is_help
      then (help_result, r)
      else if not o.takes_value
      then elim inline [
        | some value ↦ (
          failure unexpected_value (codes "flag '--" ++ (o.long_name ++ codes "' takes no value")),
          r,
        )
        | none ↦ (success, raise_flag i o r)
      ]
      else elim inline [
        | some value ↦ assign_option i o (long_label o.long_name) value r
        | none ↦ assign_next i o (long_label o.long_name) r
      ]

  -- The option behind a pointer.
  abbrev pub option_at : Run S → Option ℕ → Option (ℕ × OptionSpec S)
  option_at r none = none
  option_at r (some i) = elim (get_elem? r.options i) [ none ↦ none | some o ↦ some (i, o) ]

  unfoldable pub parse_long : List ℕ → Run S → Outcome S
  unfolding long_option
  parse_long body r =
      let (name, inline) = split_inline body in
      elim (option_at r (find_long r.options name)) [
        | none ↦ (failure unknown_option (codes "unknown option '--" ++ (name ++ codes "'")), r)
        | some (i, o) ↦ long_option i o inline r
      ]

  -- A value option in a cluster, with what stands behind its letter.
  unfoldable pub short_value : ℕ → OptionSpec S → ℕ → List ℕ → Run S → Outcome S
  unfolding assign_option assign_next
  short_value i o letter [] r = assign_next i o (short_label letter) r
  short_value i o letter (c ∷ more) r =
      assign_option i o (short_label letter) (if c == b'=' then more else c ∷ more) r

  unfoldable pub parse_short : List ℕ → Run S → Outcome S
  unfolding short_value raise_flag
  parse_short [] r = (success, r)
  parse_short (letter ∷ body) r = elim (option_at r (find_short r.options letter)) [
    | none ↦ (failure unknown_option (codes "unknown option '-" ++ (letter ∷ codes "'")), r)
    | some (i, o) ↦ elim (o.is_help) [
      | true ↦ (help_result, r)
      | false ↦ elim (o.takes_value) [
        | false ↦ parse_short body (raise_flag i o r)
        | true ↦ short_value i o letter body r
      ]
    ]
  ]

  unfoldable pub consume_positional : List ℕ → Run S → Outcome S
  consume_positional token r = elim (get_elem? r.positionals r.positional_index) [
    | none ↦ (
      failure unexpected_positional
          (codes "unexpected positional argument '" ++ (token ++ codes "'")),
      r,
    )
    | some s ↦
        let r' : Run S = record r { positional_index = r.positional_index + 1 } in
        elim (s.assign token r.vars) [
          | none ↦ (
            failure invalid_value (
                codes "invalid value '"
                ++ (token ++ (codes "' for argument '" ++ (s.name ++ codes "'")))),
            r',
          )
          | some vars ↦ (success, see_positional r.positional_index s (record r' { vars = vars }))
        ]
  ]

  unfoldable pub check_options : List (OptionSpec S) → ParseResult → ParseResult
  check_options [] next = next
  check_options (o ∷ os) next =
      let rest = check_options os next in
      if o.required && not o.seen
      then failure missing_required
          (codes "missing required option '--" ++ (o.long_name ++ codes "'"))
      else rest

  unfoldable pub check_positionals : List (PositionalSpec S) → ParseResult
  check_positionals [] = success
  check_positionals (s ∷ ss) =
      let rest = check_positionals ss in
      if s.required && not s.seen
      then failure missing_required (codes "missing required argument '" ++ (s.name ++ codes "'"))
      else rest

  unfoldable pub check_required : Run S → ParseResult
  unfolding check_options check_positionals
  check_required r = check_options r.options (check_positionals r.positionals)
