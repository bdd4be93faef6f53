-- ===== src/JsonParser/Pieces.antt =====
-- The pieces of an escaped text, by RFC 8259, and the bytes that they mean.
use egl_utils_cpp.Prelude.{
  ℕ, ◌+◌, ◌-◌, ◌*◌, ◌/◌, ◌%◌, ◌≤◌, ◌<◌, ◌≡◌, ◌⊎◌, false, some, List, [], ◌∷◌, ◌++◌, ◌==◌,
}
use egl_utils_cpp.JsonParser.Utf8.{utf8_decode}

-- The characters that stand behind a backslash, and the bytes that they mean.
pub data IsShort : ℕ → ℕ → Type 0 where
  quotation_mark : IsShort b'"' b'"'
  backslash : IsShort b'\\' b'\\'
  slash : IsShort b'/' b'/'
  backspace : IsShort b'b' 0x08
  form_feed : IsShort b'f' 0x0C
  line_feed : IsShort b'n' 0x0A
  carriage_return : IsShort b'r' 0x0D
  tab : IsShort b't' 0x09

-- A hexadecimal digit, of either case, and its value.
abbrev pub SpellsDigit : ℕ → ℕ → Type 0
SpellsDigit c v =
    (v < 10 × (c ≡ b'0' + v))
    ⊎ ((10 ≤ v × v < 16) × (c + 10 ≡ b'a' + v))
    ⊎ ((10 ≤ v × v < 16) × (c + 10 ≡ b'A' + v))

-- Four of them, and theirs.
abbrev pub Spells : List ℕ → ℕ → Type 0
Spells digits n =
    (a b c d x y z w : ℕ) × (digits ≡ a ∷ b ∷ c ∷ d ∷ [])
    × SpellsDigit a x
    × SpellsDigit b y
    × SpellsDigit c z
    × SpellsDigit d w
    × (n ≡ ((x * 16 + y) * 16 + z) * 16 + w)

-- A byte as it is, a one-character escape with the byte that it means, a `\u` escape with its digits
-- and its code point, and the two `\u` escapes of a code point above 0xFFFF.
pub data Piece : Type 0 where
  plain : ℕ → Piece
  short : ℕ → ℕ → Piece
  unit : List ℕ → ℕ → Piece
  pair : List ℕ → List ℕ → ℕ → Piece

abbrev pub IsPiece : Piece → Type 0
IsPiece (plain c) = (c == b'\\') ≡ false
IsPiece (short e b) = IsShort e b
IsPiece (unit digits n) = Spells digits n × (n < 0xD800 ⊎ 0xE000 ≤ n)
IsPiece (pair high low n) =
    (0x10000 ≤ n × n < 0x110000)
    × Spells high (0xD800 + (n - 0x10000) / 1024)
    × Spells low (0xDC00 + (n - 0x10000) % 1024)

abbrev pub AllPieces : List Piece → Type 0
AllPieces [] = Unit {0}
AllPieces (p ∷ ps) = IsPiece p × AllPieces ps

abbrev pub raw : Piece → List ℕ
raw (plain c) = c ∷ []
raw (short e b) = b'\\' ∷ e ∷ []
raw (unit digits n) = b'\\' ∷ b'u' ∷ digits
raw (pair high low n) = b'\\' ∷ b'u' ∷ high ++ (b'\\' ∷ b'u' ∷ low)

abbrev pub raw_all : List Piece → List ℕ
raw_all [] = []
raw_all (p ∷ ps) = raw p ++ raw_all ps

-- A code point is meant by its UTF-8 form.
abbrev pub IsMeaning : Piece → List ℕ → Type 0
IsMeaning (plain c) bytes = bytes ≡ c ∷ []
IsMeaning (short e b) bytes = bytes ≡ b ∷ []
IsMeaning (unit digits n) bytes = utf8_decode bytes ≡ some (n, [])
IsMeaning (pair high low n) bytes = utf8_decode bytes ≡ some (n, [])

-- The bytes of the pieces, one after the other.
abbrev pub AreMeanings : List Piece → List ℕ → Type 0
AreMeanings [] out = out ≡ []
AreMeanings (p ∷ ps) out =
    (bytes rest : List ℕ) × (out ≡ bytes ++ rest) × IsMeaning p bytes × AreMeanings ps rest
