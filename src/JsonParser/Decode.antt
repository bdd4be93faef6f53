-- ===== src/JsonParser/Decode.antt =====
-- `JsonParser::decode_string` and its helpers: from the raw slice of a string or key to its UTF-8
-- text. The loops run over the bytes that are still to be read.
use egl_utils_cpp.Prelude.{
  ℕ, zero, suc, ◌+◌, ◌-◌, ◌*◌, ◌/◌, ◌%◌, Bool, true, false, ◌&&◌, Option, none, some, List, [], ◌∷◌,
  ◌++◌, length, leb, ◌==◌, if◌then◌else◌,
}

-- The value of a hexadecimal digit.
unfoldable pub hex_value : ℕ → Option ℕ
hex_value c =
    if leb b'0' c && leb c b'9'
    then some (c - b'0')
    else if leb b'a' c && leb c b'f'
    then some (c - b'a' + 10)
    else if leb b'A' c && leb c b'F'
    then some (c - b'A' + 10)
    else none

-- `value <<= 4; value |= digit`: the low four bits are clear, so that `|` adds, and four digits stay
-- below 2^16.
unfoldable pub push_digit : ℕ → Option ℕ → Option ℕ
push_digit value none = none
push_digit value (some digit) = some (value * 16 + digit)

unfoldable pub hex_value4 : ℕ → ℕ → ℕ → ℕ → Option ℕ
unfolding push_digit
hex_value4 a b c d = elim (push_digit 0 (hex_value a)) [
  | none ↦ none
  | some x ↦ elim (push_digit x (hex_value b)) [
    | none ↦ none
    | some y ↦ elim (push_digit y (hex_value c)) [
      | none ↦ none
      | some z ↦ push_digit z (hex_value d)
    ]
  ]
]

-- The value, and the bytes behind the four digits.
unfoldable pub with_rest : List ℕ → Option ℕ → Option (ℕ × List ℕ)
with_rest rest none = none
with_rest rest (some value) = some (value, rest)

unfoldable pub read_hex4 : List ℕ → Option (ℕ × List ℕ)
unfolding with_rest
read_hex4 (a ∷ b ∷ c ∷ d ∷ rest) = with_rest rest (hex_value4 a b c d)
read_hex4 _ = none

-- The bytes of a code point. The masked parts have disjoint bits, so that `|` adds.
unfoldable pub append_utf8 : List ℕ → ℕ → List ℕ
append_utf8 out code =
    if leb code 0x7F
    then out ++ (code ∷ [])
    else if leb code 0x7FF
    then out ++ ((0xC0 + code / 64) ∷ (0x80 + code % 64) ∷ [])
    else if leb code 0xFFFF
    then out ++ ((0xE0 + code / 4096) ∷ (0x80 + code / 64 % 64) ∷ (0x80 + code % 64) ∷ [])
    else out
      ++ ((0xF0 + code / 262144)
          ∷ (0x80 + code / 4096 % 64)
          ∷ (0x80 + code / 64 % 64)
          ∷ (0x80 + code % 64)
          ∷ [])

-- After a high surrogate and the `\u` behind it: the low surrogate completes the code point.
unfoldable pub low_surrogate : ℕ → Option (ℕ × List ℕ) → Option (ℕ × List ℕ)
low_surrogate high none = none
low_surrogate high (some (low, rest)) =
    if leb 0xDC00 low && leb low 0xDFFF
    then some (0x10000 + (high - 0xD800) * 1024 + (low - 0xDC00), rest)
    else none

unfoldable pub high_surrogate : ℕ → List ℕ → Option (ℕ × List ℕ)
unfolding low_surrogate
high_surrogate high (b ∷ u ∷ rest) =
    if b == b'\\' && u == b'u' then low_surrogate high (read_hex4 rest) else none
high_surrogate high _ = none

unfoldable pub code_point : Option (ℕ × List ℕ) → Option (ℕ × List ℕ)
code_point none = none
code_point (some (code, rest)) =
    if leb 0xD800 code && leb code 0xDBFF
    then high_surrogate code rest
    else if leb 0xDC00 code && leb code 0xDFFF
    then none
    else some (code, rest)

-- The escapes of one character.
unfoldable pub simple_escape : ℕ → Option ℕ
simple_escape c =
    if c == b'"'
    then some b'"'
    else if c == b'\\'
    then some b'\\'
    else if c == b'/'
    then some b'/'
    else if c == b'b'
    then some 8
    else if c == b'f'
    then some 12
    else if c == b'n'
    then some 10
    else if c == b'r'
    then some 13
    else if c == b't'
    then some 9
    else none

-- What stands behind a backslash: the text so far with the decoded character, and the bytes left.
unfoldable pub decode_escape : List ℕ → List ℕ → Option (List ℕ × List ℕ)
decode_escape [] out = none
decode_escape (c ∷ r) out = elim (simple_escape c) [
  | some b ↦ some (out ++ (b ∷ []), r)
  | none ↦
      if c == b'u'
      then elim (code_point (read_hex4 r)) [
        | none ↦ none
        | some found ↦ some (append_utf8 out found.0, found.1)
      ]
      else none
]

-- The fuel counts rounds. Each reads a byte, so as many as there are bytes are enough. On failure the
-- text so far stays in `out`.
unfoldable pub decode_loop : ℕ → List ℕ → List ℕ → Bool × List ℕ
decode_loop zero raw out = (true, out)
decode_loop (suc fuel) [] out = (true, out)
decode_loop (suc fuel) (c ∷ r) out = elim (c == b'\\') [
  | true ↦ elim (decode_escape r out) [
    | none ↦ (false, out)
    | some next ↦ decode_loop fuel next.1 next.0
  ]
  | false ↦ decode_loop fuel r (out ++ (c ∷ []))
]

-- `bool decode_string(raw, out)`: what `out` held before is cleared.
unfoldable pub decode_string : List ℕ → Bool × List ℕ
decode_string raw = decode_loop (length raw) raw []
