-- ===== src/CliParser/Register.antt =====
-- Registration of flags, options and positional arguments. A `std::logic_error` is a result of its
-- own, with the message.
use egl_utils_cpp.Prelude.{
  ℕ, suc, Bool, true, false, not, ◌&&◌, ◌||◌, Option, none, some, List, [], ◌∷◌, ◌++◌, ◌==◌,
  if◌then◌else◌, codes, str_eq,
}
use egl_utils_cpp.CliParser.Types.{OptionSpec, PositionalSpec, CliParser, blank}

pub data Registered (A : Type 0) : Type 0 where
  registered : A → Registered A
  logic_error : List ℕ → Registered A

abbrev pub is_empty : List ℕ → Bool
is_empty [] = true
is_empty (c ∷ s) = false

abbrev pub is_found : Option ℕ → Bool
is_found none = false
is_found (some i) = true

module _ {S : Type 0} where
  -- `!option.long_name.empty() && option.long_name == name`.
  abbrev pub has_long : List ℕ → OptionSpec S → Bool
  has_long name o = not (is_empty o.long_name) && str_eq o.long_name name

  abbrev pub has_short : ℕ → OptionSpec S → Bool
  has_short name o = not (o.short_name == 0) && o.short_name == name

  -- The first option with the property, by its place in `options_`.
  unfoldable pub find_option : (OptionSpec S → Bool) → List (OptionSpec S) → Option ℕ
  find_option p [] = none
  find_option p (o ∷ os) = elim (p o) [
    | true ↦ some 0
    | false ↦ elim (find_option p os) [ none ↦ none | some i ↦ some (suc i) ]
  ]

  -- A pointer to an option is its place; `none` is `nullptr`.
  abbrev pub find_long : List (OptionSpec S) → List ℕ → Option ℕ
  find_long options name = find_option (has_long name) options

  abbrev pub find_short : List (OptionSpec S) → ℕ → Option ℕ
  find_short options name = find_option (has_short name) options

  unfoldable pub make_named_spec :
      List (OptionSpec S) → List ℕ → ℕ → List ℕ → Registered (OptionSpec S)
  make_named_spec options long_name short_name help =
      if is_empty long_name && short_name == 0
      then logic_error (codes "CliParser: an option needs a long name or a short name")
      else if not (is_empty long_name) && is_found (find_long options long_name)
      then logic_error (codes "CliParser: duplicate long name '--" ++ (long_name ++ codes "'"))
      else if not (short_name == 0) && is_found (find_short options short_name)
      then logic_error (codes "CliParser: duplicate short name '-" ++ (short_name ∷ codes "'"))
      else registered (record blank { long_name = long_name; short_name = short_name; help = help })

  abbrev pub add_spec : CliParser S → Registered (OptionSpec S) → Registered (CliParser S)
  add_spec p (logic_error message) = logic_error message
  add_spec p (registered spec) = registered (record p { options = p.options ++ (spec ∷ []) })

  -- `bound` writes `true` to the variable of the flag.
  unfoldable pub add_flag : CliParser S → List ℕ → ℕ → List ℕ → (S → S) → Registered (CliParser S)
  unfolding make_named_spec
  add_flag p long_name short_name help bound =
      elim (make_named_spec p.options long_name short_name help) [
        | logic_error message ↦ logic_error message
        | registered spec ↦ add_spec p (registered (record spec { set_flag = bound }))
      ]

  -- `target` converts a text and writes its value, or leaves the variable as it is.
  unfoldable pub add_option :
      CliParser S
      → List ℕ
      → ℕ
      → List ℕ
      → (List ℕ → S → Option S)
      → Bool
      → List ℕ
      → Registered (CliParser S)
  unfolding make_named_spec
  add_option p long_name short_name help target required value_name =
      elim (make_named_spec p.options long_name short_name help) [
        | logic_error message ↦ logic_error message
        | registered spec ↦ add_spec p (
            registered (record spec {
              takes_value = true;
              required = required;
              value_name = value_name;
              assign = target;
            }))
      ]

  unfoldable pub has_positional : List ℕ → List (PositionalSpec S) → Bool
  has_positional name [] = false
  has_positional name (existing ∷ rest) =
      let more = has_positional name rest in str_eq existing.name name || more

  unfoldable pub add_positional :
      CliParser S → List ℕ → List ℕ → (List ℕ → S → Option S) → Bool → Registered (CliParser S)
  unfolding has_positional
  add_positional p name help target required =
      if is_empty name
      then logic_error (codes "CliParser: positional name must not be empty")
      else if has_positional name p.positionals
      then logic_error (codes "CliParser: duplicate positional name '" ++ (name ++ codes "'"))
      else registered (record p {
        positionals =
            p.positionals
            ++ (record {
              name = name;
              help = help;
              required = required;
              seen = false;
              assign = target;
            }
                ∷ []);
      })
