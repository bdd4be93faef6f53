-- ===== src/JsonParser/Tests.antt =====
-- Walks over concrete documents.
use Prim.Native.String.{String}
use Prim.Native.Char.{code}
use egl_utils_cpp.Prelude.{ℕ, ◌≡◌, ◌↔◌, ◌++◌, some, refl, inl, inr, true, List, [], ◌∷◌, arith}
use egl_utils_cpp.JsonParser.Types.{JsonParser, create, done}
use egl_utils_cpp.JsonParser.Walk.{next, walk}
use egl_utils_cpp.JsonParser.Inv.{IsValid, Moves, Steps}
use egl_utils_cpp.JsonParser.Decode.{
  append_utf8, simple_escape, decode_string, decode_loop, decode_escape, read_hex4, hex_value4,
  hex_value, code_point, high_surrogate,
}
use egl_utils_cpp.JsonParser.Utf8.{utf8_decode, append_utf8-decode}
use egl_utils_cpp.JsonParser.Pieces.{
  Piece, plain, short, unit, pair, backspace, AllPieces, Spells, raw_all, AreMeanings,
}
use egl_utils_cpp.JsonParser.Escape.{decode_string-escaped}
use egl_utils_cpp.JsonParser.Scan.{scan_number}
use egl_utils_cpp.JsonParser.Grammar.{IsNumber}
use egl_utils_cpp.JsonParser.NumberScan.{number_read, scan_number_iff}
use egl_utils_cpp.JsonParser.Progress.{next-Moves, walk_total, create-IsValid}

abbrev codes : String → List ℕ
codes String.[] = []
codes (String.◌∷◌ c s) = code c ∷ codes s

abbrev document : JsonParser
document = create 3 (codes "{\"a\": [1, true]}")

document-IsValid : IsValid document
document-IsValid = create-IsValid 3 (codes "{\"a\": [1, true]}")

next-Moves_example : Moves document (next document).1
next-Moves_example = next-Moves document-IsValid

walk_total_example : (done (walk 17 document).1 ≡ true) × Steps document (walk 17 document).1
walk_total_example = walk_total 17 document-IsValid (omega arith)

append_utf8-decode_example :
    (bytes : List ℕ) × (append_utf8 (b'a' ∷ []) 0x20AC ≡ (b'a' ∷ []) ++ bytes)
    × (utf8_decode bytes ≡ some (0x20AC, []))
append_utf8-decode_example = append_utf8-decode 0x20AC (b'a' ∷ []) (omega arith)

-- `x`, a backspace, U+00E9, and U+1F600 by its surrogates, the digits in both cases.
abbrev pieces : List Piece
pieces =
    plain b'x'
    ∷ short b'b' 8
    ∷ unit (codes "00E9") 0xE9
    ∷ pair (codes "d83D") (codes "De00") 0x1F600
    ∷ []

letters : Spells (codes "00E9") 0xE9 × Spells (codes "d83D") 0xD83D × Spells (codes "De00") 0xDE00
letters = (
  (
    b'0',
    b'0',
    b'E',
    b'9',
    0,
    0,
    14,
    9,
    refl,
    inl (omega arith, refl),
    inl (omega arith, refl),
    inr (inr ((omega arith, omega arith), refl)),
    inl (omega arith, refl),
    refl,
  ),
  (
    b'd',
    b'8',
    b'3',
    b'D',
    13,
    8,
    3,
    13,
    refl,
    inr (inl ((omega arith, omega arith), refl)),
    inl (omega arith, refl),
    inl (omega arith, refl),
    inr (inr ((omega arith, omega arith), refl)),
    refl,
  ),
  (
    b'D',
    b'e',
    b'0',
    b'0',
    13,
    14,
    0,
    0,
    refl,
    inr (inr ((omega arith, omega arith), refl)),
    inr (inl ((omega arith, omega arith), refl)),
    inl (omega arith, refl),
    inl (omega arith, refl),
    refl,
  ),
)

pieces-AllPieces : AllPieces pieces
pieces-AllPieces =
    let (first, second, third) = letters in
    (
      refl,
      (backspace, ((first, inl (omega arith)), (((omega arith, omega arith), second, third), tt))),
    )

decode_string-escaped_example :
    (out : List ℕ) × (decode_string (raw_all pieces) ≡ (true, out)) × AreMeanings pieces out
decode_string-escaped_example = decode_string-escaped pieces pieces-AllPieces

decoded :
    decode_string (codes "\\u00E9\\n\\uD83d\\ude00")
    ≡ (true, 0xC3 ∷ 0xA9 ∷ 0x0A ∷ 0xF0 ∷ 0x9F ∷ 0x98 ∷ 0x80 ∷ [])
unfolding decode_string decode_loop decode_escape simple_escape read_hex4 hex_value4 code_point
    append_utf8 hex_value high_surrogate
decoded = refl

-- A number in front of a comma.
abbrev numbered : JsonParser
numbered = create 1 (codes "-1.9e3,")

scan_number_iff_example :
    (scan_number numbered ≡ number_read numbered (codes "-1.9e3")) ↔ IsNumber (codes "-1.9e3")
scan_number_iff_example =
    scan_number_iff numbered (codes "-1.9e3") (codes ",") refl
      ((λ (low, high). absurd (omega arith), refl), refl)
