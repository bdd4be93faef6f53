-- ===== src/JsonParser/Utf8.antt =====
-- The UTF-8 form of a code point, and `append_utf8` against it.
use egl_utils_cpp.Prelude.{
  ℕ, ◌+◌, ◌-◌, ◌*◌, ◌<◌, ◌≡◌, refl, Bool, ◌&&◌, Option, none, some, List, [], ◌∷◌, ◌++◌, arith, ltb,
  leb, if◌then◌else◌, Bool-cases, inl, inr,
}
use egl_utils_cpp.JsonParser.Decode.{append_utf8}

-- UTF-8 by its leading byte: shortest forms only, with continuation bytes in 0x80..0xBF.
abbrev is_continuation : ℕ → Bool
is_continuation b = leb 0x80 b && ltb b 0xC0

abbrev when : Bool → ℕ → List ℕ → Option (ℕ × List ℕ)
when good code rest = if good then some (code, rest) else none

pub utf8_decode : List ℕ → Option (ℕ × List ℕ)
utf8_decode [] = none
utf8_decode (a ∷ []) = when (ltb a 0x80) a []
utf8_decode (a ∷ b ∷ []) =
    let two = (a - 0xC0) * 64 + (b - 0x80) in
    if ltb a 0x80
    then some (a, b ∷ [])
    else when (leb 0xC0 a && ltb a 0xE0 && is_continuation b && leb 0x80 two) two []
utf8_decode (a ∷ b ∷ c ∷ []) =
    let two = (a - 0xC0) * 64 + (b - 0x80) in
    let three = ((a - 0xE0) * 64 + (b - 0x80)) * 64 + (c - 0x80) in
    if ltb a 0x80
    then some (a, b ∷ c ∷ [])
    else if ltb a 0xE0
    then when (leb 0xC0 a && is_continuation b && leb 0x80 two) two (c ∷ [])
    else when (ltb a 0xF0 && is_continuation b && is_continuation c && leb 0x800 three) three []
utf8_decode (a ∷ b ∷ c ∷ d ∷ r) =
    let two = (a - 0xC0) * 64 + (b - 0x80) in
    let three = ((a - 0xE0) * 64 + (b - 0x80)) * 64 + (c - 0x80) in
    let four = (((a - 0xF0) * 64 + (b - 0x80)) * 64 + (c - 0x80)) * 64 + (d - 0x80) in
    if ltb a 0x80
    then some (a, b ∷ c ∷ d ∷ r)
    else if ltb a 0xE0
    then when (leb 0xC0 a && is_continuation b && leb 0x80 two) two (c ∷ d ∷ r)
    else if ltb a 0xF0
    then when (is_continuation b && is_continuation c && leb 0x800 three) three (d ∷ r)
    else when
        (ltb a 0xF8
          && is_continuation b
          && is_continuation c
          && is_continuation d
          && leb 0x10000 four)
        four r

-- The bytes that `append_utf8` adds for a code point are its UTF-8 form.
pub append_utf8-decode :
    (code : ℕ) (out : List ℕ)
    → code < 0x110000
    → (bytes : List ℕ) × (append_utf8 out code ≡ out ++ bytes)
      × (utf8_decode bytes ≡ some (code, []))
unfolding append_utf8 utf8_decode
append_utf8-decode code out h = elim (Bool-cases (leb code 0x7F)) [
  | inl one ↦ rw one (code ∷ [], refl, ground arith)
  | inr more ↦ elim (Bool-cases (leb code 0x7FF)) [
    | inl two ↦ rw (more, two) (_, refl, ground arith)
    | inr more' ↦ elim (Bool-cases (leb code 0xFFFF)) [
      | inl three ↦ rw (more, more', three) (_, refl, ground arith)
      | inr four ↦ rw (more, more', four) (_, refl, ground arith)
    ]
  ]
]
