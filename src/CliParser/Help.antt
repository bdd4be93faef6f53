-- ===== src/CliParser/Help.antt =====
-- `CliParser::help` and its helpers.
use egl_utils_cpp.Prelude.{
  ℕ, zero, suc, ◌-◌, Bool, true, false, not, List, [], ◌∷◌, ◌++◌, length, ltb, ◌==◌, if◌then◌else◌,
  codes,
}
use egl_utils_cpp.StringBuilder.{StringBuilder, empty, append, append_char, take_str}
use egl_utils_cpp.CliParser.Types.{OptionSpec, PositionalSpec, CliParser}
use egl_utils_cpp.CliParser.Register.{is_empty}

-- `std::max`.
unfoldable pub max_of : ℕ → ℕ → ℕ
max_of a b = if ltb a b then b else a

-- The loop `for (pad = size; pad < width; ++pad)`; the fuel counts the rounds.
unfoldable pub pad_from : ℕ → StringBuilder → StringBuilder
pad_from zero out = out
pad_from (suc rounds) out = pad_from rounds (append_char out b' ')

unfoldable pub append_help_row : StringBuilder → List ℕ → List ℕ → ℕ → StringBuilder
unfolding pad_from
append_help_row out label help width =
    let labelled = append (append out (codes "  ")) label in
    let padded = pad_from (width - length label) labelled in
    append_char (append (append padded (codes "  ")) help) b'\n'

unfoldable pub append_description : StringBuilder → List ℕ → StringBuilder
append_description out description =
    if is_empty description
    then out
    else append_char (append (append_char out b'\n') description) b'\n'

module _ {S : Type 0} where
  unfoldable pub option_label : OptionSpec S → List ℕ
  option_label o =
      let short =
        if not (o.short_name == 0)
        then b'-' ∷ o.short_name ∷ (if is_empty o.long_name then [] else codes ", ")
        else codes "    " in
      let long = if is_empty o.long_name then [] else b'-' ∷ b'-' ∷ o.long_name in
      let value = if o.takes_value then b' ' ∷ o.value_name else [] in short ++ (long ++ value)

  unfoldable pub option_help : OptionSpec S → List ℕ
  option_help o = if o.required then o.help ++ codes " (required)" else o.help

  unfoldable pub positionals_width : ℕ → List (PositionalSpec S) → ℕ
  positionals_width width [] = width
  positionals_width width (s ∷ ss) = positionals_width (max_of width (length s.name)) ss

  unfoldable pub options_width : ℕ → List (OptionSpec S) → ℕ
  options_width width [] = width
  options_width width (o ∷ os) = options_width (max_of width (length (option_label o))) os

  unfoldable pub label_column_width : CliParser S → ℕ
  label_column_width p = options_width (positionals_width 0 p.positionals) p.options

  unfoldable pub usage_from : StringBuilder → List (PositionalSpec S) → StringBuilder
  usage_from out [] = out
  usage_from out (s ∷ ss) =
      let opened = append out (if s.required then codes " <" else codes " [") in
      let closed = append (append opened s.name) (if s.required then codes ">" else codes "]") in
      usage_from closed ss

  unfoldable pub positional_rows : ℕ → StringBuilder → List (PositionalSpec S) → StringBuilder
  positional_rows width out [] = out
  positional_rows width out (s ∷ ss) =
      positional_rows width (append_help_row out s.name s.help width) ss

  unfoldable pub option_rows : ℕ → StringBuilder → List (OptionSpec S) → StringBuilder
  option_rows width out [] = out
  option_rows width out (o ∷ os) =
      option_rows width (append_help_row out (option_label o) (option_help o) width) os

  abbrev pub no_options : List (OptionSpec S) → Bool
  no_options [] = true
  no_options (o ∷ os) = false

  abbrev pub no_positionals : List (PositionalSpec S) → Bool
  no_positionals [] = true
  no_positionals (s ∷ ss) = false

  unfoldable pub list_positionals : ℕ → StringBuilder → List (PositionalSpec S) → StringBuilder
  unfolding positional_rows
  list_positionals width out ss =
      if no_positionals ss
      then out
      else positional_rows width (append out (codes "\nPositional arguments:\n")) ss

  unfoldable pub help : CliParser S → List ℕ
  unfolding label_column_width
  help p =
      let named = append (append empty (codes "Usage: ")) p.program_name in
      let optioned = if no_options p.options then named else append named (codes " [OPTIONS]") in
      let usage = append_char (usage_from optioned p.positionals) b'\n' in
      let described = append_description usage p.description in
      let width = label_column_width p in
      let listed = list_positionals width described p.positionals in
      (take_str (option_rows width (append listed (codes "\nOptions:\n")) p.options)).0
