-- ===== src/Hash/Hex.antt =====
-- The digest and its hexadecimal text.
use Prim.Native.Nat.{bit_and, bit_and-bitwise}
use egl_utils_cpp.Hash.Bits.{low_bit}
use egl_utils_cpp.Prelude.{
  ℕ, zero, suc, ◌+◌, ◌-◌, ◌*◌, ◌/◌, ◌%◌, ◌^◌, ◌<◌, ◌≤◌, ◌⊎◌, ◌≡◌, refl, ap₂, List, [], ◌∷◌, ◌++◌,
  length, leb, codes, if◌then◌else◌, arith,
}
use egl_utils_cpp.Hash.Sha256.{
  at, hex_digit, hex_bytes, sha256, sha256_hex, digest_bytes, word_bytes, blocks, total, initial,
  State,
}

abbrev pub AreBytes : List ℕ → Type 0
AreBytes [] = Unit {0}
AreBytes (x ∷ xs) = (x < 256) × AreBytes xs

-- The characters from `0` to `9` and from `a` to `f`.
abbrev pub IsHexDigit : ℕ → Type 0
IsHexDigit c = (b'0' ≤ c × c ≤ b'9') ⊎ (b'a' ≤ c × c ≤ b'f')

abbrev pub AreHexDigits : List ℕ → Type 0
AreHexDigits [] = Unit {0}
AreHexDigits (c ∷ text) = IsHexDigit c × AreHexDigits text

-- The value of a hexadecimal digit.
abbrev pub digit_value : ℕ → ℕ
digit_value c = if leb c b'9' then c - b'0' else c - b'a' + 10

-- The bytes that a text of hexadecimal digits spells.
abbrev pub unhex : List ℕ → List ℕ
unhex (c ∷ d ∷ text) = (digit_value c * 16 + digit_value d) ∷ unhex text
unhex _ = []

low_four : (x : ℕ) → bit_and 0x0f x ≡ x % 16
low_four x = simp (bit_and-bitwise, low_bit) (omega arith)

digit_value-hex_digit : (n : ℕ) → n < 16 → digit_value (hex_digit n) ≡ n
digit_value-hex_digit zero h = refl
digit_value-hex_digit (suc zero) h = refl
digit_value-hex_digit (suc (suc zero)) h = refl
digit_value-hex_digit (suc (suc (suc zero))) h = refl
digit_value-hex_digit (suc (suc (suc (suc zero)))) h = refl
digit_value-hex_digit (suc (suc (suc (suc (suc zero))))) h = refl
digit_value-hex_digit (suc (suc (suc (suc (suc (suc zero)))))) h = refl
digit_value-hex_digit (suc (suc (suc (suc (suc (suc (suc zero))))))) h = refl
digit_value-hex_digit (suc (suc (suc (suc (suc (suc (suc (suc zero)))))))) h = refl
digit_value-hex_digit (suc (suc (suc (suc (suc (suc (suc (suc (suc zero))))))))) h = refl
digit_value-hex_digit (suc (suc (suc (suc (suc (suc (suc (suc (suc (suc zero)))))))))) h = refl
digit_value-hex_digit (suc (suc (suc (suc (suc (suc (suc (suc (suc (suc (suc zero))))))))))) h =
    refl
digit_value-hex_digit (suc (suc (suc (suc (suc (suc (suc (suc (suc (suc (suc (suc zero))))))))))))
      h =
    refl
digit_value-hex_digit
      (suc (suc (suc (suc (suc (suc (suc (suc (suc (suc (suc (suc (suc zero))))))))))))) h =
    refl
digit_value-hex_digit
      (suc (suc (suc (suc (suc (suc (suc (suc (suc (suc (suc (suc (suc (suc zero)))))))))))))) h =
    refl
digit_value-hex_digit
      (suc (suc (suc (suc (suc (suc (suc (suc (suc (suc (suc (suc (suc (suc (suc zero)))))))))))))))
      h =
    refl
digit_value-hex_digit
      (suc
        (suc (suc (suc (suc (suc (suc (suc (suc (suc (suc (suc (suc (suc (suc (suc n))))))))))))))))
      h =
    absurd (omega arith)

at-IsHexDigit :
    (text : List ℕ) (n : ℕ) → AreHexDigits text → n < length text → IsHexDigit (at text n)
at-IsHexDigit [] n digits h = absurd (omega arith)
at-IsHexDigit (c ∷ text) zero (digit, digits) h = digit
at-IsHexDigit (c ∷ text) (suc n) (digit, digits) h = at-IsHexDigit text n digits (omega arith)

hex_digit-IsHexDigit : (n : ℕ) → n < 16 → IsHexDigit (hex_digit n)
hex_digit-IsHexDigit n h = at-IsHexDigit (codes "0123456789abcdef") n (ground arith) h

hex_bytes-AreHexDigits : (xs : List ℕ) → AreHexDigits (hex_bytes xs)
hex_bytes-AreHexDigits [] = tt
hex_bytes-AreHexDigits (x ∷ xs) =
    let e = low_four (x / 2 ^ 4) in
    let f = low_four x in
    (
      hex_digit-IsHexDigit (bit_and 0x0f (x / 2 ^ 4)) (omega arith),
      (hex_digit-IsHexDigit (bit_and 0x0f x) (omega arith), hex_bytes-AreHexDigits xs),
    )

unhex_pair :
    (x : ℕ)
    → x < 256
    → digit_value (hex_digit (bit_and 0x0f (x / 2 ^ 4))) * 16
        + digit_value (hex_digit (bit_and 0x0f x))
      ≡ x
unhex_pair x h =
    let high = digit_value-hex_digit (x / 16 % 16) (omega arith) in
    let low = digit_value-hex_digit (x % 16) (omega arith) in
    let e = low_four (x / 2 ^ 4) in rw (low_four x, e, high, low) (omega arith)

unhex-hex_bytes : (xs : List ℕ) → AreBytes xs → unhex (hex_bytes xs) ≡ xs
unhex-hex_bytes [] h = refl
unhex-hex_bytes (x ∷ xs) (small, h) =
    ap₂ (λ y ys. y ∷ ys) (unhex_pair x small) (unhex-hex_bytes xs h)

length-hex_bytes : (xs : List ℕ) → length (hex_bytes xs) ≡ 2 * length xs
length-hex_bytes [] = omega arith
length-hex_bytes (x ∷ xs) = omega (arith, length-hex_bytes xs)

AreBytes-append : (xs ys : List ℕ) → AreBytes xs → AreBytes ys → AreBytes (xs ++ ys)
AreBytes-append [] ys h k = k
AreBytes-append (x ∷ xs) ys (small, h) k = (small, AreBytes-append xs ys h k)

word_bytes-AreBytes : (x : ℕ) (ys : List ℕ) → AreBytes ys → AreBytes (word_bytes x ++ ys)
word_bytes-AreBytes x ys h = (omega arith, (omega arith, (omega arith, (omega arith, h))))

digest_bytes-AreBytes : (h : State) → AreBytes (digest_bytes h)
digest_bytes-AreBytes h =
    let last : AreBytes (word_bytes h.hh) =
      (omega arith, (omega arith, (omega arith, (omega arith, tt)))) in
    let g_on = word_bytes-AreBytes h.g (word_bytes h.hh) last in
    let f_on = word_bytes-AreBytes h.f (word_bytes h.g ++ (word_bytes h.hh)) g_on in
    let e_on =
      word_bytes-AreBytes h.e (word_bytes h.f ++ (word_bytes h.g ++ (word_bytes h.hh))) f_on in
    let d_on =
      word_bytes-AreBytes h.d
        (word_bytes h.e ++ (word_bytes h.f ++ (word_bytes h.g ++ (word_bytes h.hh)))) e_on in
    let c_on =
      word_bytes-AreBytes h.c
        (word_bytes h.d
          ++ (word_bytes h.e ++ (word_bytes h.f ++ (word_bytes h.g ++ (word_bytes h.hh)))))
        d_on in
    let b_on =
      word_bytes-AreBytes h.b
        (word_bytes h.c
          ++ (word_bytes h.d
              ++ (word_bytes h.e ++ (word_bytes h.f ++ (word_bytes h.g ++ (word_bytes h.hh))))))
        c_on in
    word_bytes-AreBytes h.a
      (word_bytes h.b
        ++ (word_bytes h.c
            ++ (word_bytes h.d
                ++ (word_bytes h.e ++ (word_bytes h.f ++ (word_bytes h.g ++ (word_bytes h.hh)))))))
      b_on

-- `sha256` gives 32 bytes; `sha256_hex` gives 64 characters, each of `0` to `9` or `a` to `f`, which
-- spell those bytes as hexadecimal digits, the higher half of each byte first.
pub unhex-sha256_hex :
    (text : List ℕ)
    → AreBytes (sha256 text)
      × (length (sha256 text) ≡ 32)
      × (length (sha256_hex text) ≡ 64)
      × AreHexDigits (sha256_hex text)
      × (unhex (sha256_hex text) ≡ sha256 text)
unfolding sha256 sha256_hex
unhex-sha256_hex text =
    let h = blocks (total text / 64) 0 text initial in
    let bytes = digest_bytes-AreBytes h in
    (
      bytes,
      refl,
      refl,
      hex_bytes-AreHexDigits (digest_bytes h),
      unhex-hex_bytes (digest_bytes h) bytes,
    )
