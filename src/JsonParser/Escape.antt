-- ===== src/JsonParser/Escape.antt =====
-- How `decode_string` reads the pieces of an escaped text.
use egl_utils_cpp.Prelude.{
  ℕ, zero, suc, ◌+◌, ◌-◌, ◌*◌, ◌/◌, ◌%◌, ◌≤◌, ◌<◌, ◌≡◌, ◌⊎◌, refl, sym, ap, ◌∙◌, true, some, List,
  [], ◌∷◌, ◌++◌, length, length-append, append_assoc, append-nil, arith, leb, Bool-cases, inl, inr,
}
use egl_utils_cpp.JsonParser.Decode.{
  hex_value, push_digit, hex_value4, with_rest, read_hex4, append_utf8, low_surrogate,
  high_surrogate, code_point, simple_escape, decode_escape, decode_loop, decode_string,
}
use egl_utils_cpp.JsonParser.Utf8.{utf8_decode, append_utf8-decode}
use egl_utils_cpp.JsonParser.Pieces.{
  IsShort, quotation_mark, backslash, slash, backspace, form_feed, line_feed, carriage_return, tab,
  SpellsDigit, Spells, Piece, plain, short, unit, pair, IsPiece, AllPieces, raw, raw_all, IsMeaning,
  AreMeanings,
}

IsShort-simple_escape : (e b : ℕ) → IsShort e b → simple_escape e ≡ some b
unfolding simple_escape
IsShort-simple_escape e b quotation_mark = refl
IsShort-simple_escape e b backslash = refl
IsShort-simple_escape e b slash = refl
IsShort-simple_escape e b backspace = refl
IsShort-simple_escape e b form_feed = refl
IsShort-simple_escape e b line_feed = refl
IsShort-simple_escape e b carriage_return = refl
IsShort-simple_escape e b tab = refl

hex_value-SpellsDigit : (c v : ℕ) → SpellsDigit c v → hex_value c ≡ some v
unfolding hex_value
hex_value-SpellsDigit c v h = ground arith

-- What four digits mean, by what each of them means.
hex_value4_digits :
    (a b c d : ℕ) {x y z w : ℕ}
    → hex_value a ≡ some x
    → hex_value b ≡ some y
    → hex_value c ≡ some z
    → hex_value d ≡ some w
    → hex_value4 a b c d ≡ some (((x * 16 + y) * 16 + z) * 16 + w)
unfolding hex_value4 push_digit
hex_value4_digits a b c d ea eb ec ed = rw (hex_value4, ea, eb, ec, ed) (ap some (omega arith))

read_hex4-Spells :
    (digits rest : List ℕ) (n : ℕ) → Spells digits n → read_hex4 (digits ++ rest) ≡ some (n, rest)
unfolding read_hex4 with_rest
read_hex4-Spells digits rest n (a, b, c, d, x, y, z, w, four, ha, hb, hc, hd, value) =
    ap (λ s. read_hex4 (s ++ rest)) four
    ∙ ap (with_rest rest) (
        hex_value4_digits a b c d (hex_value-SpellsDigit a x ha) (hex_value-SpellsDigit b y hb)
          (hex_value-SpellsDigit c z hc) (hex_value-SpellsDigit d w hd)
        ∙ ap some (sym value))

abbrev text : Piece → List ℕ
text (plain c) = c ∷ []
text (short e b) = b ∷ []
text (unit digits n) = append_utf8 [] n
text (pair high low n) = append_utf8 [] n

nibble_lt : (c v : ℕ) → SpellsDigit c v → v < 16
nibble_lt c v h = ground arith

quad_lt : (digits : List ℕ) (n : ℕ) → Spells digits n → n < 0x10000
quad_lt digits n (a, b, c, d, x, y, z, w, four, ha, hb, hc, hd, value) =
    let hx = nibble_lt a x ha in
    let hy = nibble_lt b y hb in
    let hz = nibble_lt c z hc in let hw = nibble_lt d w hd in omega arith

utf8_decode-append_utf8 : (n : ℕ) → n < 0x110000 → utf8_decode (append_utf8 [] n) ≡ some (n, [])
utf8_decode-append_utf8 n h =
    let (bytes, e, back) = append_utf8-decode n [] h in ap utf8_decode e ∙ back

text-IsMeaning : (p : Piece) → IsPiece p → IsMeaning p (text p)
text-IsMeaning (plain c) h = refl
text-IsMeaning (short e b) h = refl
text-IsMeaning (unit digits n) (h, apart) =
    utf8_decode-append_utf8 n (let small = quad_lt digits n h in omega arith)
text-IsMeaning (pair high low n) (range, _, _) = utf8_decode-append_utf8 n range.1

append_utf8_from : (out : List ℕ) (code : ℕ) → append_utf8 out code ≡ out ++ append_utf8 [] code
unfolding append_utf8
append_utf8_from out code = elim (Bool-cases (leb code 0x7F)) [
  | inl one ↦ rw one refl
  | inr more ↦ elim (Bool-cases (leb code 0x7FF)) [
    | inl two ↦ rw (more, two) refl
    | inr more' ↦ elim (Bool-cases (leb code 0xFFFF)) [
      | inl three ↦ rw (more, more', three) refl
      | inr four ↦ rw (more, more', four) refl
    ]
  ]
]

code_point_unit :
    (n : ℕ) (rest : List ℕ) → n < 0xD800 ⊎ 0xE000 ≤ n → code_point (some (n, rest)) ≡ some (n, rest)
unfolding code_point
code_point_unit n rest out = ground arith

low_surrogate_pair :
    (m : ℕ) (rest : List ℕ)
    → m < 0x100000
    → low_surrogate (0xD800 + m / 1024) (some (0xDC00 + m % 1024, rest)) ≡ some (0x10000 + m, rest)
unfolding low_surrogate
low_surrogate_pair m rest h = ground arith

code_point_pair :
    (m : ℕ) (low rest : List ℕ)
    → m < 0x100000
    → Spells low (0xDC00 + m % 1024)
    → code_point (some (0xD800 + m / 1024, b'\\' ∷ b'u' ∷ low ++ rest)) ≡ some (0x10000 + m, rest)
unfolding code_point high_surrogate
code_point_pair m low rest h spelled =
    let lo : leb 0xD800 (0xD800 + m / 1024) ≡ true = ground arith in
    let hi : leb (0xD800 + m / 1024) 0xDBFF ≡ true = ground arith in
    rw (lo, hi, read_hex4-Spells low rest (0xDC00 + m % 1024) spelled) (low_surrogate_pair m rest h)

decode_escape_code :
    (r : List ℕ) (out : List ℕ) {n : ℕ} {rest : List ℕ}
    → code_point (read_hex4 r) ≡ some (n, rest)
    → decode_escape (b'u' ∷ r) out ≡ some (out ++ append_utf8 [] n, rest)
unfolding decode_escape simple_escape
decode_escape_code r out {n} e = rw (e, append_utf8_from out n) refl

decode_loop_escape :
    (f : ℕ) (r out : List ℕ) {next : List ℕ × List ℕ}
    → decode_escape r out ≡ some next
    → decode_loop (suc f) (b'\\' ∷ r) out ≡ decode_loop f next.1 next.0
unfolding decode_loop
decode_loop_escape f r out e = rw (decode_loop, e) refl

-- One round of the loop takes one piece.
decode_loop_piece :
    (p : Piece) (f : ℕ) (rest out : List ℕ)
    → IsPiece p
    → decode_loop (suc f) (raw p ++ rest) out ≡ decode_loop f rest (out ++ text p)
unfolding decode_loop decode_escape
decode_loop_piece (plain c) f rest out h = rw (decode_loop, h) refl
decode_loop_piece (short e b) f rest out h =
    decode_loop_escape f (e ∷ rest) out (rw (decode_escape, IsShort-simple_escape e b h) refl)
decode_loop_piece (unit digits n) f rest out (spelled, apart) =
    decode_loop_escape f (b'u' ∷ digits ++ rest) out (
      decode_escape_code (digits ++ rest) out
        (ap code_point (read_hex4-Spells digits rest n spelled) ∙ code_point_unit n rest apart))
decode_loop_piece (pair high low n) f rest out ((low_end, high_end), first, second) =
    let m = n - 0x10000 in
    let back : 0x10000 + m ≡ n = omega arith in
    let behind = b'\\' ∷ b'u' ∷ low ++ rest in
    let found : code_point (read_hex4 (high ++ behind)) ≡ some (0x10000 + m, rest) =
      ap code_point (read_hex4-Spells high behind (0xD800 + m / 1024) first)
      ∙ code_point_pair m low rest (omega arith) second in
    let whole = append_assoc high (b'\\' ∷ b'u' ∷ low) rest in
    ap (λ s. decode_loop (suc f) (b'\\' ∷ b'u' ∷ s) out) whole
    ∙ decode_loop_escape f (b'u' ∷ high ++ behind) out
        (decode_escape_code (high ++ behind) out (found ∙ ap (λ k. some (k, rest)) back))

abbrev text_all : List Piece → List ℕ
text_all [] = []
text_all (p ∷ ps) = text p ++ text_all ps

text_all-AreMeanings : (ps : List Piece) → AllPieces ps → AreMeanings ps (text_all ps)
text_all-AreMeanings [] h = refl
text_all-AreMeanings (p ∷ ps) (good, more) =
    (text p, text_all ps, refl, text-IsMeaning p good, text_all-AreMeanings ps more)

raw-length : (p : Piece) → 1 ≤ length (raw p)
raw-length (plain c) = omega arith
raw-length (short e b) = omega arith
raw-length (unit digits n) = omega arith
raw-length (pair high low n) = omega arith

decode_loop_pieces :
    (ps : List Piece) (f : ℕ) (out : List ℕ)
    → AllPieces ps
    → length (raw_all ps) ≤ f
    → decode_loop f (raw_all ps) out ≡ (true, out ++ text_all ps)
unfolding decode_loop
decode_loop_pieces [] zero out good enough = ap (λ o. (true, o)) (sym (append-nil out))
decode_loop_pieces [] (suc f) out good enough = ap (λ o. (true, o)) (sym (append-nil out))
decode_loop_pieces (p ∷ ps) zero out good enough =
    let long = raw-length p in let sum = length-append (raw p) (raw_all ps) in absurd (omega arith)
decode_loop_pieces (p ∷ ps) (suc f) out (good, more) enough =
    let long = raw-length p in
    let sum = length-append (raw p) (raw_all ps) in
    decode_loop_piece p f (raw_all ps) out good
    ∙ decode_loop_pieces ps f (out ++ text p) more (omega arith)
    ∙ ap (λ o. (true, o)) (append_assoc out (text p) (text_all ps))

-- A slice made of well-formed pieces (plain bytes other than a backslash; the eight one-character
-- escapes; `\u` escapes, in hexadecimal digits of either case, of code points that are no surrogates;
-- and surrogate pairs of the code points above 0xFFFF) is decoded, with success, to the bytes that the
-- pieces mean, one after the other: those of the escapes by the table of RFC 8259, and a code point by
-- its UTF-8 form.
pub decode_string-escaped :
    (ps : List Piece)
    → AllPieces ps
    → (out : List ℕ) × (decode_string (raw_all ps) ≡ (true, out)) × AreMeanings ps out
unfolding decode_string
decode_string-escaped ps good = (
  text_all ps,
  decode_loop_pieces ps (length (raw_all ps)) [] good (omega arith),
  text_all-AreMeanings ps good,
)
