-- ===== src/JsonParser/Bounds.antt =====
-- The scanners of `JsonParser` pass no more bytes than there are.
use egl_utils_cpp.Prelude.{
  ℕ, zero, suc, ◌+◌, ◌≤◌, ◌<◌, Bool, true, false, List, [], ◌∷◌, length, drop, length-drop, arith,
  ◌==◌, if◌then◌else◌, ◌||◌, ltb,
}
use egl_utils_cpp.JsonParser.Types.{ErrorMessage, fraction_needs_digit, exponent_needs_digit}
use egl_utils_cpp.JsonParser.Scan.{
  is_digit, is_hex, is_simple_escape, span_length, Part, passed, refused, Scanner, shift, and_then,
  ◌▷◌, minus_sign, integer_part, digits_or, fraction_part, exponent_sign, exponent_part,
  number_scanner, hex_digits, escape_body, validate_escape, StringScan, closed, broken,
  unterminated, shift_string, after_escape, string_loop,
}

pub span_length-le : (test : ℕ → Bool) (l : List ℕ) → span_length test l ≤ length l
unfolding span_length
span_length-le test [] = omega arith
span_length-le test (c ∷ r) = ground (arith, span_length-le test r)

-- Of `size` bytes a scanner passes at least `least`, or refuses them inside.
abbrev pub Within : ℕ → ℕ → Part → Type 0
Within least size (passed n) = (least ≤ n) × (n ≤ size)
Within least size (refused m n) = n ≤ size

Within-widen :
    (i j size size' : ℕ) (a : Part) → i ≤ j → size ≤ size' → Within j size a → Within i size' a
Within-widen i j size size' (passed n) h k w = omega arith
Within-widen i j size size' (refused m n) h k w = omega arith

-- A part behind `n` bytes.
shift-Within :
    (i n j size size' : ℕ) (a : Part)
    → i ≤ n + j
    → n + size ≤ size'
    → Within j size a
    → Within i size' (shift n a)
unfolding shift
shift-Within i n j size size' (passed k) h l w = omega arith
shift-Within i n j size size' (refused m k) h l w = omega arith

if-Within :
    (b : Bool) (i size : ℕ) (x y : Part)
    → Within i size x
    → Within i size y
    → Within i size (if b then x else y)
if-Within true i size x y hx hy = hx
if-Within false i size x y hx hy = hy

-- So it is whatever bytes it is given.
abbrev pub IsBounded : ℕ → Scanner → Type 0
IsBounded least s = (l : List ℕ) → Within least (length l) (s l)

and_then-Within :
    (i j : ℕ) (l : List ℕ) (a : Part) (b : Scanner)
    → Within i (length l) a
    → IsBounded j b
    → Within (i + j) (length l) (and_then a l b)
unfolding and_then
and_then-Within i j l (passed n) b w hb =
    shift-Within (i + j) n j (length (drop n l)) (length l) (b (drop n l)) (omega arith)
      (omega (arith, length-drop n l)) (hb (drop n l))
and_then-Within i j l (refused m n) b w hb = w

minus_sign-IsBounded : IsBounded 0 minus_sign
unfolding minus_sign
minus_sign-IsBounded [] = ground arith
minus_sign-IsBounded (c ∷ r) = ground arith

integer_part-IsBounded : IsBounded 1 integer_part
unfolding integer_part is_digit span_length
integer_part-IsBounded [] = ground arith
integer_part-IsBounded (c ∷ r) = ground (arith, span_length-le is_digit r)

digits_or-IsBounded : (m : ErrorMessage) → IsBounded 1 (digits_or m)
unfolding digits_or is_digit span_length
digits_or-IsBounded m [] = ground arith
digits_or-IsBounded m (c ∷ r) = ground (arith, span_length-le is_digit r)

fraction_part-IsBounded : IsBounded 0 fraction_part
unfolding fraction_part
fraction_part-IsBounded [] = ground arith
fraction_part-IsBounded (c ∷ r) =
    if-Within (c == b'.') 0 (suc (length r)) _ _
      (shift-Within 0 1 1 (length r) (suc (length r)) _ (omega arith) (omega arith)
        (digits_or-IsBounded fraction_needs_digit r))
      (omega arith)

exponent_sign-IsBounded : IsBounded 0 exponent_sign
unfolding exponent_sign
exponent_sign-IsBounded [] = ground arith
exponent_sign-IsBounded (c ∷ r) = ground arith

exponent_part-IsBounded : IsBounded 0 exponent_part
unfolding exponent_part
exponent_part-IsBounded [] = ground arith
exponent_part-IsBounded (c ∷ r) =
    if-Within (c == b'e' || c == b'E') 0 (suc (length r)) _ _
      (shift-Within 0 1 1 (length r) (suc (length r)) _ (omega arith) (omega arith) (
        and_then-Within 0 1 r (exponent_sign r) (digits_or exponent_needs_digit)
          (exponent_sign-IsBounded r) (digits_or-IsBounded exponent_needs_digit)))
      (omega arith)

-- A number takes at least one byte.
pub number_scanner-IsBounded : IsBounded 1 number_scanner
unfolding number_scanner
number_scanner-IsBounded l =
    and_then-Within 0 1 l (minus_sign l) (integer_part ▷ fraction_part ▷ exponent_part)
      (minus_sign-IsBounded l)
      λ r.
        and_then-Within 1 0 r (integer_part r) (fraction_part ▷ exponent_part)
          (integer_part-IsBounded r)
          λ t.
            and_then-Within 0 0 t (fraction_part t) exponent_part (fraction_part-IsBounded t)
              exponent_part-IsBounded

hex_digits-IsBounded : (k : ℕ) → IsBounded 0 (hex_digits k)
unfolding hex_digits
hex_digits-IsBounded zero l = omega arith
hex_digits-IsBounded (suc k) [] = omega arith
hex_digits-IsBounded (suc k) (c ∷ r) =
    if-Within (is_hex c) 0 (suc (length r)) _ _
      (shift-Within 0 1 0 (length r) (suc (length r)) _ (omega arith) (omega arith)
        (hex_digits-IsBounded k r))
      (omega arith)

-- From a backslash on, a valid escape takes at least two bytes.
pub validate_escape-Within :
    (c : ℕ) (r : List ℕ) → Within 2 (suc (length r)) (validate_escape (c ∷ r))
unfolding validate_escape escape_body
validate_escape-Within c [] = omega arith
validate_escape-Within c (d ∷ r) =
    if-Within (is_simple_escape d) 2 (suc (suc (length r))) _ _ (omega arith) (
      if-Within (d == b'u') 2 (suc (suc (length r))) _ _
        (shift-Within 2 2 0 (length r) (suc (suc (length r))) _ (omega arith) (omega arith)
          (hex_digits-IsBounded 4 r))
        (omega arith))

-- A string that closes does so at a byte that is there; one that breaks does so inside.
abbrev pub StringWithin : ℕ → StringScan → Type 0
StringWithin size (closed n) = n < size
StringWithin size (broken m n) = n ≤ size
StringWithin size unterminated = Unit {0}

shift_string-Within :
    (n size size' : ℕ) (a : StringScan)
    → n + size ≤ size'
    → StringWithin size a
    → StringWithin size' (shift_string n a)
unfolding shift_string
shift_string-Within n size size' (closed k) h w = omega arith
shift_string-Within n size size' (broken m k) h w = omega arith
shift_string-Within n size size' unterminated h w = tt

after_escape-Within :
    (a : Part) (l : List ℕ) (rest : List ℕ → StringScan)
    → Within 0 (length l) a
    → ((t : List ℕ) → StringWithin (length t) (rest t))
    → StringWithin (length l) (after_escape a (λ n. rest (drop n l)))
unfolding after_escape
after_escape-Within (passed n) l rest w h =
    shift_string-Within n (length (drop n l)) (length l) (rest (drop n l))
      (omega (arith, length-drop n l)) (h (drop n l))
after_escape-Within (refused m n) l rest w h = w

if-StringWithin :
    (b : Bool) (size : ℕ) (x y : StringScan)
    → StringWithin size x
    → StringWithin size y
    → StringWithin size (if b then x else y)
if-StringWithin true size x y hx hy = hx
if-StringWithin false size x y hx hy = hy

pub string_loop-Within : (fuel : ℕ) (l : List ℕ) → StringWithin (length l) (string_loop fuel l)
unfolding string_loop
string_loop-Within zero l = tt
string_loop-Within (suc fuel) [] = tt
string_loop-Within (suc fuel) (c ∷ r) =
    if-StringWithin (c == b'"') (suc (length r)) _ _ (omega arith) (
      if-StringWithin (c == b'\\') (suc (length r)) _ _
        (after_escape-Within (validate_escape (c ∷ r)) (c ∷ r) (string_loop fuel)
          (Within-widen 0 2 (suc (length r)) (suc (length r)) (validate_escape (c ∷ r))
            (omega arith) (omega arith) (validate_escape-Within c r))
          (string_loop-Within fuel))
        (if-StringWithin (ltb c 0x20) (suc (length r)) _ _ (omega arith) (
          shift_string-Within 1 (length r) (suc (length r)) _ (omega arith)
            (string_loop-Within fuel r))))
