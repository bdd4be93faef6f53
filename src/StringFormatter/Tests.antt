-- ===== src/StringFormatter/Tests.antt =====
-- string_formatter.hpp: the examples of the class comment and of its tests, and the theorems at
-- concrete arguments.
use egl_utils_cpp.Prelude.{
  ℕ, zero, suc, ◌≡◌, refl, ◌↔◌, Option, none, some, List, [], ◌∷◌, ◌++◌, length, codes,
}
use egl_utils_cpp.Prelude.Int.{pos, negsuc}
use egl_utils_cpp.StringBuilder.{seeded, append_integer}
use egl_utils_cpp.StringBuilder.Decimal.{decimal_digits, decimal, integer}
use egl_utils_cpp.StringFormatter.{Argument, number, floating, text, format_to, format}
use egl_utils_cpp.StringFormatter.Check.{
  FormatStringError, unterminated_open_brace, stray_close_brace, argument_count_mismatch,
  check_format_string, valid, format_string,
}
use egl_utils_cpp.StringFormatter.Checked.{Means, check_format_string_iff}
use egl_utils_cpp.StringFormatter.Grammar.{Item, Spells, rendered}
use egl_utils_cpp.StringFormatter.Render.{texts_of, format_renders}

-- A `to_chars` of two values that prints the first and has no room for the second.
abbrev two_values : ℕ → ℕ → Option (List ℕ)
two_values size zero = some (codes "0.5")
two_values size (suc n) = none

abbrev sum : List ℕ
sum = codes "{} + {} = {}"

abbrev operands : List (Argument ℕ)
operands = number (pos 1) ∷ number (negsuc 1) ∷ text (codes "three") ∷ []

format-sum : format two_values sum operands ≡ some (codes "1 + -2 = three")
unfolding format append_integer integer decimal decimal_digits
format-sum = refl

format_braces : format two_values (codes "{{{}}}") (floating 0 ∷ []) ≡ some (codes "{0.5}")
unfolding format
format_braces = refl

-- Rendered without the check, a lone brace at the end is read past.
unchecked : format two_values (codes "a{") [] ≡ none
unfolding format
unchecked = refl

rejected_index : check_format_string (codes "{0}") 1 ≡ unterminated_open_brace
unfolding check_format_string
rejected_index = refl

rejected_close : check_format_string (codes "a}b") 0 ≡ stray_close_brace
unfolding check_format_string
rejected_close = refl

rejected_count : check_format_string (codes "{}{}") 1 ≡ argument_count_mismatch
unfolding check_format_string
rejected_count = refl

format_string-sum : format_string sum 3 ≡ valid sum
unfolding format_string
format_string-sum = refl

sum_checked : check_format_string sum (length operands) ≡ FormatStringError.none
unfolding check_format_string
sum_checked = refl

check_format_string_iff_example :
    (check_format_string (codes "a}b") 0 ≡ stray_close_brace)
    ↔ Means stray_close_brace (codes "a}b") 0
check_format_string_iff_example = check_format_string_iff stray_close_brace (codes "a}b") 0

format_renders_example :
    (items : List Item) × Spells [] sum items
    × (format two_values sum operands ≡ some (rendered items (texts_of two_values operands)))
    × (format_to two_values (seeded (codes "> ")) sum operands
        ≡ some (seeded (codes "> " ++ rendered items (texts_of two_values operands))))
format_renders_example = format_renders two_values sum operands (codes "> ") sum_checked
