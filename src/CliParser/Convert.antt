-- ===== src/CliParser/Convert.antt =====
-- `detail::cli_parse`: the conversion of a text to a string, a `bool`, or an integer by
-- `std::from_chars` in base 10.
use egl_utils_cpp.Prelude.{
  ℕ, suc, ◌+◌, ◌-◌, ◌*◌, ◌^◌, ◌/◌, zero, Bool, true, false, ◌&&◌, ◌||◌, Option, none, some, List,
  [], ◌∷◌, ltb, leb, ◌==◌, if◌then◌else◌, codes, str_eq,
}
use egl_utils_cpp.Prelude.Int.{ℤ, pos, negsuc}

abbrev pub cli_parse_string : List ℕ → Option (List ℕ)
cli_parse_string text = some text

unfoldable pub cli_parse_bool : List ℕ → Option Bool
unfolding str_eq
cli_parse_bool text =
    if str_eq text (codes "true")
      || str_eq text (codes "1")
      || str_eq text (codes "yes")
      || str_eq text (codes "on")
    then some true
    else if str_eq text (codes "false")
        || str_eq text (codes "0")
        || str_eq text (codes "no")
        || str_eq text (codes "off")
    then some false
    else none

-- The integer types of the supported platforms, by their bits.
pub data Width : Type 0 where
  bits8 bits16 bits32 bits64 : Width

pub data IntType : Type 0 where
  signed unsigned : Width → IntType

-- The number of values of a type.
abbrev pub values : Width → ℕ
values bits8 = 2 ^ 8
values bits16 = 2 ^ 16
values bits32 = 2 ^ 32
values bits64 = 2 ^ 64

abbrev pub is_signed : IntType → Bool
is_signed (signed w) = true
is_signed (unsigned w) = false

-- Whether the type has the value.
abbrev pub fits : IntType → ℤ → Bool
fits (signed w) (pos n) = ltb n (values w / 2)
fits (signed w) (negsuc n) = ltb n (values w / 2)
fits (unsigned w) (pos n) = ltb n (values w)
fits (unsigned w) (negsuc n) = false

abbrev pub is_digit : ℕ → Bool
is_digit c = leb b'0' c && leb c b'9'

-- The value of digits only, behind digits of the value `acc`.
unfoldable pub digits_value : ℕ → List ℕ → Option ℕ
digits_value acc [] = some acc
digits_value acc (c ∷ text) =
    let rest = digits_value (10 * acc + (c - b'0')) text in if is_digit c then rest else none

-- `std::from_chars` up to the end of the text wants a digit at least.
unfoldable pub magnitude : List ℕ → Option ℕ
unfolding digits_value
magnitude [] = none
magnitude (c ∷ text) = digits_value 0 (c ∷ text)

abbrev negate : ℕ → ℤ
negate zero = pos 0
negate (suc n) = negsuc n

abbrev pub in_range : IntType → ℤ → Option ℤ
in_range t v = if fits t v then some v else none

-- A minus sign is read for a signed type only.
unfoldable pub cli_parse_integer : IntType → List ℕ → Option ℤ
unfolding magnitude
cli_parse_integer t [] = none
cli_parse_integer t (c ∷ text) =
    if is_signed t && c == b'-'
    then elim (magnitude text) [ none ↦ none | some n ↦ in_range t (negate n) ]
    else elim (magnitude (c ∷ text)) [ none ↦ none | some n ↦ in_range t (pos n) ]

-- The type-erased writer that an option keeps: it stores what the text converts to.
unfoldable pub write_to {ℓ} :
    {A : Type ℓ} {S : Type 0} → (List ℕ → Option A) → (A → S → S) → List ℕ → S → Option S
write_to convert store text s = elim (convert text) [ none ↦ none | some v ↦ some (store v s) ]
