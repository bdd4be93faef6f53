-- ===== src/JsonParser/Scan.antt =====
-- The scanners of `JsonParser`: whitespace, strings, numbers and literals. Each loop runs over the
-- bytes that are still to be read.
use egl_utils_cpp.Prelude.{
  ℕ, zero, suc, ◌+◌, Bool, true, false, ◌&&◌, ◌||◌, Option, none, some, List, [], ◌∷◌, length, take,
  drop, leb, ltb, ◌==◌, if◌then◌else◌,
}
use egl_utils_cpp.JsonParser.Types.{
  JsonToken, number, JsonEvent, ErrorMessage, control_character, unterminated_string,
  unterminated_escape, invalid_unicode_escape, invalid_escape, number_needs_digit,
  fraction_needs_digit, exponent_needs_digit, invalid_literal, JsonParser, unread, first_or_nul,
  event, make_error,
}

unfoldable pub is_digit : ℕ → Bool
is_digit c = leb b'0' c && leb c b'9'

pub is_hex : ℕ → Bool
unfolding is_digit
is_hex c = is_digit c || (leb b'a' c && leb c b'f') || (leb b'A' c && leb c b'F')

pub is_whitespace : ℕ → Bool
is_whitespace c = c == b' ' || c == b'\t' || c == b'\n' || c == b'\r'

-- How many bytes a `while (test(peek())) ++pos_;` passes.
unfoldable pub span_length : (ℕ → Bool) → List ℕ → ℕ
span_length test [] = 0
span_length test (c ∷ r) = if test c then suc (span_length test r) else 0

unfoldable pub skip_whitespace : JsonParser → JsonParser
skip_whitespace p = record p { pos = p.pos + span_length is_whitespace (unread p) }

-- A scanner reads the bytes ahead: it passes a number of them, or it refuses them with an error
-- raised after a number of them.
pub data Part : Type 0 where
  passed : ℕ → Part
  refused : ErrorMessage → ℕ → Part

abbrev pub Scanner : Type 0
Scanner = List ℕ → Part

-- What was scanned begins `n` bytes further on.
unfoldable pub shift : ℕ → Part → Part
shift n (passed k) = passed (n + k)
shift n (refused m k) = refused m (n + k)

unfoldable pub and_then : Part → List ℕ → Scanner → Part
unfolding shift
and_then (passed n) l second = shift n (second (drop n l))
and_then (refused m n) l second = refused m n

infixr 20 ◌▷◌
-- One scanner after the other.
abbrev pub ◌▷◌ : Scanner → Scanner → Scanner
◌▷◌ first second l = and_then (first l) l second

unfoldable pub minus_sign : Scanner
minus_sign l = passed (if first_or_nul l == b'-' then 1 else 0)

-- A lone 0, or a nonzero digit followed by more digits.
unfoldable pub integer_part : Scanner
integer_part l =
    if first_or_nul l == b'0'
    then passed 1
    else if is_digit (first_or_nul l)
    then passed (span_length is_digit l)
    else refused number_needs_digit 0

-- At least one digit: of these the loop passes all.
unfoldable pub digits_or : ErrorMessage → Scanner
digits_or m l = if is_digit (first_or_nul l) then passed (span_length is_digit l) else refused m 0

unfoldable pub fraction_part : Scanner
unfolding shift
fraction_part l =
    if first_or_nul l == b'.' then shift 1 (digits_or fraction_needs_digit (drop 1 l)) else passed 0

unfoldable pub exponent_sign : Scanner
exponent_sign l = passed (if first_or_nul l == b'+' || first_or_nul l == b'-' then 1 else 0)

unfoldable pub exponent_part : Scanner
unfolding exponent_sign
exponent_part l =
    if first_or_nul l == b'e' || first_or_nul l == b'E'
    then shift 1 ((exponent_sign ▷ digits_or exponent_needs_digit) (drop 1 l))
    else passed 0

unfoldable pub number_scanner : Scanner
number_scanner = minus_sign ▷ integer_part ▷ fraction_part ▷ exponent_part

unfoldable pub number_event : JsonParser → Part → JsonEvent × JsonParser
number_event p (passed n) = (event number (take n (unread p)), record p { pos = p.pos + n })
number_event p (refused m n) = make_error m (record p { pos = p.pos + n })

unfoldable pub scan_number : JsonParser → JsonEvent × JsonParser
scan_number p = number_event p (number_scanner (unread p))

unfoldable pub starts_with : List ℕ → List ℕ → Bool
starts_with l [] = true
starts_with [] (d ∷ s) = false
starts_with (c ∷ l) (d ∷ s) = c == d && starts_with l s

unfoldable pub scan_literal : List ℕ → JsonToken → JsonParser → JsonEvent × JsonParser
scan_literal literal token p =
    if starts_with (unread p) literal
    then (event token literal, record p { pos = p.pos + length literal })
    else make_error invalid_literal p

-- The escapes of one character after the backslash.
pub is_simple_escape : ℕ → Bool
is_simple_escape c =
    c == b'"'
    || c == b'\\'
    || c == b'/'
    || c == b'b'
    || c == b'f'
    || c == b'n'
    || c == b'r'
    || c == b't'

unfoldable pub hex_digits : ℕ → Scanner
unfolding shift
hex_digits zero l = passed 0
hex_digits (suc k) [] = refused invalid_unicode_escape 0
hex_digits (suc k) (c ∷ r) =
    if is_hex c then shift 1 (hex_digits k r) else refused invalid_unicode_escape 0

unfoldable pub escape_body : Scanner
unfolding shift
escape_body [] = refused unterminated_escape 0
escape_body (c ∷ r) =
    if is_simple_escape c
    then passed 2
    else if c == b'u'
    then shift 2 (hex_digits 4 r)
    else refused invalid_escape 1

-- At a backslash: validates the escape and passes it.
unfoldable pub validate_escape : Scanner
validate_escape l = escape_body (drop 1 l)

-- The loop over the bytes after the opening quote: the length of the raw slice up to the closing
-- quote, or an error after a number of bytes, or no closing quote at all.
pub data StringScan : Type 0 where
  closed : ℕ → StringScan
  broken : ErrorMessage → ℕ → StringScan
  unterminated : StringScan

unfoldable pub shift_string : ℕ → StringScan → StringScan
shift_string n (closed k) = closed (n + k)
shift_string n (broken m k) = broken m (n + k)
shift_string n unterminated = unterminated

unfoldable pub after_escape : Part → (ℕ → StringScan) → StringScan
unfolding shift_string
after_escape (passed n) rest = shift_string n (rest n)
after_escape (refused m n) rest = broken m n

-- The fuel counts rounds. Each passes a byte, so as many as there are bytes are enough.
unfoldable pub string_loop : ℕ → List ℕ → StringScan
unfolding shift_string after_escape
string_loop zero l = unterminated
string_loop (suc fuel) [] = unterminated
string_loop (suc fuel) (c ∷ r) =
    let escaped = after_escape (validate_escape (c ∷ r)) (λ n. string_loop fuel (drop n (c ∷ r))) in
    let plain = shift_string 1 (string_loop fuel r) in
    if c == b'"'
    then closed 0
    else if c == b'\\'
    then escaped
    else if ltb c 0x20
    then broken control_character 0
    else plain

unfoldable pub string_result : JsonParser → List ℕ → StringScan → Option (List ℕ) × JsonParser
string_result p l (closed n) = (some (take n l), record p { pos = p.pos + 1 + n + 1 })
string_result p l (broken m n) = (none, (make_error m (record p { pos = p.pos + 1 + n })).1)
string_result p l unterminated = (none, (make_error unterminated_string p).1)

-- At the opening quote.
unfoldable pub scan_string : JsonParser → Option (List ℕ) × JsonParser
scan_string p = let l = drop 1 (unread p) in string_result p l (string_loop (length l) l)
