-- ===== src/StringBuilder.antt =====
-- src/main/cpp/it/d4np/util/string_builder.hpp: `StringBuilder`, one owned string. Its members return
-- the new builder; `operator<<` is `append`.
pub mod Decimal
pub mod Width
use egl_utils_cpp.Prelude.{ℕ, Bool, true, false, List, [], ◌∷◌, ◌++◌, length, leb, if◌then◌else◌}
use egl_utils_cpp.Prelude.Int.{ℤ, pos, negsuc}
use Decimal.{decimal, integer}

pub record StringBuilder : Type 0 where
  pub buffer : List ℕ

abbrev pub empty : StringBuilder
empty = record { buffer = [] }

-- `explicit StringBuilder(std::string_view initial)`.
abbrev pub seeded : List ℕ → StringBuilder
seeded initial = record { buffer = initial }

abbrev pub append : StringBuilder → List ℕ → StringBuilder
append b text = record { buffer = b.buffer ++ text }

abbrev pub append_char : StringBuilder → ℕ → StringBuilder
append_char b character = record { buffer = b.buffer ++ (character ∷ []) }

-- `std::to_chars` into an array of 24: the digits where they fit, and an error where they do not.
unfoldable pub append_integer : StringBuilder → ℤ → StringBuilder
append_integer b value =
    let digits = integer value in if leb (length digits) 24 then append b digits else b

abbrev pub clear : StringBuilder → StringBuilder
clear b = record { buffer = [] }

abbrev pub size : StringBuilder → ℕ
size b = length b.buffer

abbrev pub view : StringBuilder → List ℕ
view b = b.buffer

-- `str() &&`: the text, and the builder left behind.
unfoldable pub take_str : StringBuilder → List ℕ × StringBuilder
take_str b = (b.buffer, clear b)
