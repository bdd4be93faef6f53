-- ===== src/StringFormatter.antt =====
-- src/main/cpp/it/d4np/util/string_formatter.hpp: `StringFormatter::format` on top of `StringBuilder`.
-- A `std::string_view` is walked by its bytes from the index on. The standard library's
-- `std::to_chars` of a floating-point value is a parameter.
pub mod Grammar
pub mod Check
mod Checked
mod Render
mod Tests
use egl_utils_cpp.Prelude.{
  ℕ, zero, suc, Bool, true, false, Option, none, some, List, [], ◌∷◌, ◌++◌, length, codes, ◌==◌,
  ◌||◌, if◌then◌else◌,
}
use egl_utils_cpp.Prelude.Int.{ℤ}
use egl_utils_cpp.StringBuilder.{StringBuilder, empty, append, append_char, append_integer, view}

-- A `Formattable` value by its category; `F` stands for `float` and `double`.
pub data Argument (F : Type 0) : Type 0 where
  boolean : Bool → Argument F
  character : ℕ → Argument F
  number : ℤ → Argument F
  floating : F → Argument F
  text : List ℕ → Argument F

unfoldable pub is_brace : ℕ → Bool
is_brace ch = ch == b'{' || ch == b'}'

-- `advance_to_placeholder`: `run` holds the bytes from index `run` up to `i`, the last argument those
-- from `i` on. The result has the value returned, the builder and the new `rest`; it is absent where
-- `rest[i + 1]` lies past the end.
unfoldable pub advance_from :
    StringBuilder → List ℕ → List ℕ → Option (Bool × StringBuilder × List ℕ)
unfolding is_brace
advance_from out run [] = some (false, append out run, [])
advance_from out run (ch ∷ []) = elim (is_brace ch) [
  | true ↦ none
  | false ↦ some (false, append out (run ++ (ch ∷ [])), [])
]
advance_from out run (ch ∷ next ∷ more) = elim (is_brace ch) [
  | true ↦ elim (next == ch) [
    | true ↦ advance_from (append_char (append out run) ch) [] more
    | false ↦ some (true, append out run, more)
  ]
  | false ↦ advance_from out (run ++ (ch ∷ [])) (next ∷ more)
]

unfoldable pub advance_to_placeholder :
    StringBuilder → List ℕ → Option (Bool × StringBuilder × List ℕ)
unfolding advance_from
advance_to_placeholder out rest = advance_from out [] rest

-- `to_chars size value`: the text of the value, where it fits the buffer.
module _ {F : Type 0} (to_chars : ℕ → F → Option (List ℕ)) where
  unfoldable pub append_float : StringBuilder → F → StringBuilder
  append_float out value = elim (to_chars 32 value) [ none ↦ out | some digits ↦ append out digits ]

  unfoldable pub append_value : StringBuilder → Argument F → StringBuilder
  unfolding append_float append_integer
  append_value out (boolean value) = append out (if value then codes "true" else codes "false")
  append_value out (character value) = append_char out value
  append_value out (number value) = append_integer out value
  append_value out (floating value) = append_float out value
  append_value out (text value) = append out value

  unfoldable pub append_segment :
      StringBuilder → List ℕ → Argument F → Option (StringBuilder × List ℕ)
  unfolding advance_to_placeholder append_value
  append_segment out rest value = elim (advance_to_placeholder out rest) [
    | none ↦ none
    | some (found, out', rest') ↦ some (if found then append_value out' value else out', rest')
  ]

  -- The fold over the arguments, and the trailing literal run.
  unfoldable pub format_rest : StringBuilder → List ℕ → List (Argument F) → Option StringBuilder
  unfolding append_segment advance_to_placeholder
  format_rest out rest [] = elim (advance_to_placeholder out rest) [
    | none ↦ none
    | some (found, out', rest') ↦ some out'
  ]
  format_rest out rest (value ∷ args) = elim (append_segment out rest value) [
    | none ↦ none
    | some (out', rest') ↦ format_rest out' rest' args
  ]

  unfoldable pub format_to : StringBuilder → List ℕ → List (Argument F) → Option StringBuilder
  unfolding format_rest
  format_to out fmt args = format_rest out fmt args

  -- The builder's reserved capacity is not part of its value.
  unfoldable pub format : List ℕ → List (Argument F) → Option (List ℕ)
  unfolding format_to
  format fmt args = elim (format_to empty fmt args) [ none ↦ none | some out ↦ some (view out) ]
