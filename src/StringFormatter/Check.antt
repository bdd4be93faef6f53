-- ===== src/StringFormatter/Check.antt =====
-- string_formatter.hpp: `check_format_string`, and the `consteval` constructor of `BasicFormatString`,
-- which fails the build where it finds an error.
use egl_utils_cpp.Prelude.{ℕ, zero, suc, true, false, List, [], ◌∷◌, codes, ◌==◌, if◌then◌else◌}

pub data FormatStringError : Type 0 where
  none : FormatStringError
  unterminated_open_brace : FormatStringError
  stray_close_brace : FormatStringError
  argument_count_mismatch : FormatStringError

-- The loop of `check_format_string` on the text from index `i` on.
unfoldable pub check_from : List ℕ → ℕ → ℕ → FormatStringError
check_from [] placeholders argument_count =
    if placeholders == argument_count then none else argument_count_mismatch
check_from (ch ∷ []) placeholders argument_count =
    if ch == b'{'
    then unterminated_open_brace
    else if ch == b'}'
    then stray_close_brace
    else check_from [] placeholders argument_count
check_from (ch ∷ next ∷ more) placeholders argument_count = elim (ch == b'{') [
  | true ↦ elim (next == b'{') [
    | true ↦ check_from more placeholders argument_count
    | false ↦ elim (next == b'}') [
      | true ↦ check_from more (suc placeholders) argument_count
      | false ↦ unterminated_open_brace
    ]
  ]
  | false ↦ elim (ch == b'}') [
    | true ↦ elim (next == b'}') [
      | true ↦ check_from more placeholders argument_count
      | false ↦ stray_close_brace
    ]
    | false ↦ check_from (next ∷ more) placeholders argument_count
  ]
]

unfoldable pub check_format_string : List ℕ → ℕ → FormatStringError
unfolding check_from
check_format_string text argument_count = check_from text zero argument_count

-- A call of `invalid_format_string` fails the build with its reason.
pub data FormatString : Type 0 where
  valid : List ℕ → FormatString
  invalid_format_string : List ℕ → FormatString

unfoldable pub judged : List ℕ → FormatStringError → FormatString
judged text unterminated_open_brace =
    invalid_format_string
      (codes "unterminated '{': only \"{}\" placeholders and \"{{\" escapes exist")
judged text stray_close_brace =
    invalid_format_string (codes "stray '}': write \"}}\" for a literal '}'")
judged text argument_count_mismatch =
    invalid_format_string (codes "number of {} placeholders differs from the number of arguments")
judged text none = valid text

-- The constructor, for as many arguments as `sizeof...(Args)`.
unfoldable pub format_string : List ℕ → ℕ → FormatString
unfolding judged check_format_string
format_string text argument_count = judged text (check_format_string text argument_count)
