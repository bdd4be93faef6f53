-- ===== src/CliParser/RoundTrip.antt =====
-- What `StringBuilder` prints of an integer, `cli_parse` reads back.
use egl_utils_cpp.Prelude.{
  ℕ, zero, suc, ◌+◌, ◌*◌, ◌/◌, ◌^◌, ◌%◌, ◌<◌, ◌≤◌, ◌==◌, ap, ltb, lt→ltb, ltb→lt, length,
  append-nil, ◌≡◌, refl, sym, ◌∙◌, true, false, some, List, [], ◌∷◌, ◌++◌, Bool-cases, inl, inr,
  arith, append_assoc, le→leb,
}
use egl_utils_cpp.Prelude.Int.{ℤ, pos, negsuc}
use egl_utils_cpp.StringBuilder.{StringBuilder, view, append_integer}
use egl_utils_cpp.StringBuilder.Width.{length-integer}
use egl_utils_cpp.StringBuilder.Decimal.{decimal_digits, decimal, integer}
use egl_utils_cpp.CliParser.Convert.{
  Width, bits8, bits16, bits32, bits64, IntType, signed, unsigned, values, fits, digits_value,
  magnitude, cli_parse_integer,
}

abbrev limit : ℕ → ℕ
limit zero = 10
limit (suc f) = 10 * limit f

digits_value_digit :
    (acc d : ℕ) (rest : List ℕ)
    → ltb d 10 ≡ true
    → digits_value acc ((b'0' + d) ∷ rest) ≡ digits_value (10 * acc + d) rest
unfolding digits_value
digits_value_digit acc d rest h = ground (arith, ap (λ m. digits_value m rest))

digits_value-decimal_digits :
    (f n : ℕ) (rest : List ℕ)
    → n < limit f
    → digits_value 0 (decimal_digits f n ++ rest) ≡ digits_value n rest
unfolding digits_value decimal_digits
digits_value-decimal_digits zero n rest h = ground arith
digits_value-decimal_digits (suc f) n rest h =
    let ih = digits_value-decimal_digits f (n / 10) ((b'0' + n % 10) ∷ rest) (omega arith) in
    let regroup = append_assoc (decimal_digits f (n / 10)) ((b'0' + n % 10) ∷ []) rest in
    elim (Bool-cases (ltb n 10)) [
      | inl small ↦
          rw small (digits_value_digit 0 n rest small ∙ ap (λ m. digits_value m rest) (omega arith))
      | inr big ↦ rw big (
          ap (digits_value 0) regroup
          ∙ ih
          ∙ digits_value_digit (n / 10) (n % 10) rest (lt→ltb (n % 10) 10 (omega arith))
          ∙ ap (λ m. digits_value m rest) (omega arith))
    ]

-- There is a digit at least, and no text of digits starts with a minus sign.
decimal_digits_first :
    (f n : ℕ) → (c : ℕ) × (text : List ℕ) × (decimal_digits f n ≡ c ∷ text) × ((c == b'-') ≡ false)
unfolding decimal_digits
decimal_digits_first zero n = (b'0' + n % 10, [], refl, ground arith)
decimal_digits_first (suc f) n = elim (Bool-cases (ltb n 10)) [
  | inl small ↦ (b'0' + n, [], rw small refl, ground arith)
  | inr big ↦
      let (c, text, e, no_sign) = decimal_digits_first f (n / 10) in
      (c, text ++ ((b'0' + n % 10) ∷ []), rw (big, e) refl, no_sign)
]

magnitude-decimal : (n : ℕ) → n < 2 ^ 64 → magnitude (decimal n) ≡ some n
unfolding decimal magnitude digits_value
magnitude-decimal n h =
    let (c, text, e, no_sign) = decimal_digits_first 19 n in
    let whole = digits_value-decimal_digits 19 n [] (omega arith) in
    let shown : digits_value 0 (decimal_digits 19 n) ≡ some n =
      ap (digits_value 0) (sym (append-nil (decimal_digits 19 n))) ∙ whole in
    let back : digits_value 0 (c ∷ text) ≡ some n = ap (digits_value 0) (sym e) ∙ shown in
    ap magnitude e ∙ back

values_bound : (w : Width) → values w ≤ 2 ^ 64
values_bound bits8 = omega arith
values_bound bits16 = omega arith
values_bound bits32 = omega arith
values_bound bits64 = omega arith

fits_pos : (t : IntType) (n : ℕ) → fits t (pos n) ≡ true → n < 2 ^ 64
fits_pos (signed w) n h = let small = ltb→lt n (values w / 2) h in omega (arith, values_bound w)
fits_pos (unsigned w) n h = let small = ltb→lt n (values w) h in omega (arith, values_bound w)

read_digits :
    (t : IntType) (c : ℕ) (text : List ℕ) (n : ℕ)
    → (c == b'-') ≡ false
    → magnitude (c ∷ text) ≡ some n
    → fits t (pos n) ≡ true
    → cli_parse_integer t (c ∷ text) ≡ some (pos n)
unfolding cli_parse_integer
read_digits (signed w) c text n no_sign back h = ground arith
read_digits (unsigned w) c text n no_sign back h = ground arith

read_plain :
    (t : IntType) (n : ℕ)
    → magnitude (decimal n) ≡ some n
    → fits t (pos n) ≡ true
    → cli_parse_integer t (decimal n) ≡ some (pos n)
unfolding decimal
read_plain t n back h =
    let (c, text, e, no_sign) = decimal_digits_first 19 n in
    ap (cli_parse_integer t) e ∙ read_digits t c text n no_sign (ap magnitude (sym e) ∙ back) h

read_negative :
    (t : IntType) (n : ℕ)
    → magnitude (decimal (suc n)) ≡ some (suc n)
    → fits t (negsuc n) ≡ true
    → cli_parse_integer t (b'-' ∷ decimal (suc n)) ≡ some (negsuc n)
unfolding cli_parse_integer
read_negative (signed w) n back h = rw (cli_parse_integer, back, h) refl
read_negative (unsigned w) n back h = absurd (cc)

cli_parse_integer-integer :
    (t : IntType) (v : ℤ) → fits t v ≡ true → cli_parse_integer t (integer v) ≡ some v
unfolding integer
cli_parse_integer-integer t (pos n) h = read_plain t n (magnitude-decimal n (fits_pos t n h)) h
cli_parse_integer-integer (signed w) (negsuc n) h =
    let small = ltb→lt n (values w / 2) h in
    read_negative (signed w) n (magnitude-decimal (suc n) (omega (arith, values_bound w))) h
cli_parse_integer-integer (unsigned w) (negsuc n) h = absurd (let e = h in cc)

-- The array of 24 characters is wide enough for every integer of 64 bits at most: appending one to a
-- builder adds its digits behind the contents, and `cli_parse` for its type reads back the integer
-- from them.
pub cli_parse_integer-append_integer :
    (t : IntType) (v : ℤ) (b : StringBuilder)
    → fits t v ≡ true
    → (view (append_integer b v) ≡ view b ++ integer v) × (cli_parse_integer t (integer v) ≡ some v)
unfolding append_integer
cli_parse_integer-append_integer t v b h = (
  ap view (rw (le→leb (length (integer v)) 24 (omega (arith, length-integer v))) refl),
  cli_parse_integer-integer t v h,
)
