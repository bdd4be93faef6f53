-- ===== src/Hash/Padding.antt =====
-- The padded message of SHA-256, which the code never builds.
use Prim.Native.Nat.{bit_and, bit_and-bitwise}
use egl_utils_cpp.Prelude.{
  ℕ, zero, suc, ◌+◌, ◌-◌, ◌*◌, ◌/◌, ◌%◌, ◌^◌, ◌<◌, ◌≤◌, ◌≡◌, refl, sym, ap, ◌∙◌, some, List, [],
  ◌∷◌, ◌++◌, length, length-append, length-replicate, get_elem?, get_elem?-append_left,
  get_elem?-append_right, get_elem?-replicate, lt→ltb, le→leb, ltb, leb, false, lt_cases, replicate,
  ◌==◌, Bool-cases, inl, inr, arith,
}
use egl_utils_cpp.Hash.Bits.{low_bit}
use egl_utils_cpp.Hash.Sha256.{at, pad_total, total, bitlen, padded}

-- How many zero bytes FIPS 180-4 puts behind the byte 0x80.
abbrev pub zeros : ℕ → ℕ
zeros len = (119 - len % 64) % 64

abbrev pub big_endian_64 : ℕ → List ℕ
big_endian_64 n =
    n / 2 ^ 56 % 256
    ∷ n / 2 ^ 48 % 256
    ∷ n / 2 ^ 40 % 256
    ∷ n / 2 ^ 32 % 256
    ∷ n / 2 ^ 24 % 256
    ∷ n / 2 ^ 16 % 256
    ∷ n / 2 ^ 8 % 256
    ∷ n % 256
    ∷ []

-- The padded message as FIPS 180-4 describes it.
abbrev pub padded_message : List ℕ → List ℕ
padded_message text =
    text ++ (0x80 ∷ (replicate (zeros (length text)) 0 ++ big_endian_64 (length text * 8)))

pad_total_lem :
    (fuel t : ℕ) → (120 - t % 64) % 64 ≤ fuel → pad_total fuel t ≡ t + (120 - t % 64) % 64
unfolding pad_total
pad_total_lem zero t h = omega arith
pad_total_lem (suc fuel) t h = elim (Bool-cases (t % 64 == 56)) [
  | inl e ↦ ground arith
  | inr n ↦ ground (arith, pad_total_lem fuel (t + 1))
]

total_lem : (text : List ℕ) → total text ≡ length text + 1 + zeros (length text) + 8
unfolding total
total_lem text = omega (arith, pad_total_lem 63 (length text + 1))

low_byte : (x : ℕ) → bit_and 0xff x ≡ x % 256
low_byte x = simp (bit_and-bitwise, low_bit) (omega arith)

get_elem?-at : (xs : List ℕ) (i : ℕ) → i < length xs → get_elem? xs i ≡ some (at xs i)
get_elem?-at [] i h = absurd (omega arith)
get_elem?-at (x ∷ xs) zero h = refl
get_elem?-at (x ∷ xs) (suc i) h = get_elem?-at xs i (omega arith)

byte_at : (n s : ℕ) → s < 8 → get_elem? (big_endian_64 n) (7 - s) ≡ some (n / 2 ^ (s * 8) % 256)
byte_at n zero h = ap some (omega arith)
byte_at n (suc zero) h = refl
byte_at n (suc (suc zero)) h = refl
byte_at n (suc (suc (suc zero))) h = refl
byte_at n (suc (suc (suc (suc zero)))) h = refl
byte_at n (suc (suc (suc (suc (suc zero))))) h = refl
byte_at n (suc (suc (suc (suc (suc (suc zero)))))) h = refl
byte_at n (suc (suc (suc (suc (suc (suc (suc zero))))))) h = refl
byte_at n (suc (suc (suc (suc (suc (suc (suc (suc s)))))))) h = absurd (omega arith)

module _ (text : List ℕ) where
  filling : List ℕ
  filling = replicate (zeros (length text)) 0 ++ big_endian_64 (length text * 8)

  padded_inside : (i : ℕ) → i < length text → padded text i ≡ at text i
  unfolding padded
  padded_inside i h = rw (lt→ltb i (length text) h) refl

  padded_mark : padded text (length text) ≡ 0x80
  unfolding padded
  padded_mark = ground arith

  padded_zero : (i : ℕ) → length text < i → i + 8 < total text → padded text i ≡ 0
  unfolding padded
  padded_zero i h k =
      let a : ltb i (length text) ≡ false = ground arith in
      let b : (i == length text) ≡ false = ground arith in
      let c : leb (total text - 8) i ≡ false = ground arith in rw (a, b, c) refl

  padded_last :
      (i : ℕ)
      → length text < i
      → total text ≤ i + 8
      → 8 ≤ total text
      → padded text i ≡ bit_and 0xff (bitlen text / 2 ^ ((total text - 1 - i) * 8))
  unfolding padded
  padded_last i h k m =
      let a : ltb i (length text) ≡ false = ground arith in
      let b : (i == length text) ≡ false = ground arith in
      rw (a, b, le→leb (total text - 8) i (omega arith)) refl

  message_behind :
      (i j : ℕ) → i ≡ length text + 1 + j → get_elem? (padded_message text) i ≡ get_elem? filling j
  unfolding filling
  message_behind i j h = get_elem?-append_right text (0x80 ∷ filling) i (suc j) (omega arith)

  length_bytes :
      (i : ℕ)
      → length text < 2 ^ 61
      → length text < i
      → total text ≤ i + 8
      → i < total text
      → get_elem? filling (i - length text - 1) ≡ some (padded text i)
  unfolding filling
  length_bytes i small behind last h =
      let s = total text - 1 - i in
      let n = length text * 8 in
      let bits : bitlen text ≡ n = omega arith in
      get_elem?-append_right (replicate (zeros (length text)) 0) (big_endian_64 n) _ (7 - s)
        (omega (arith, total_lem text, length-replicate {A = ℕ} (zeros (length text)) 0))
      ∙ byte_at n s (omega (arith, total_lem text))
      ∙ ap some (
          ap (λ m. m / 2 ^ (s * 8) % 256) (sym bits)
          ∙ sym (low_byte (bitlen text / 2 ^ (s * 8)))
          ∙ sym (padded_last i behind last (omega (arith, total_lem text))))

  get_elem?-padded_message :
      (i : ℕ)
      → length text < 2 ^ 61
      → i < total text
      → get_elem? (padded_message text) i ≡ some (padded text i)
  unfolding filling
  get_elem?-padded_message i small h = elim (lt_cases i (length text)) [
    | inl inside ↦
        get_elem?-append_left text _ i inside
        ∙ get_elem?-at text i inside
        ∙ ap some (sym (padded_inside i inside))
    | inr outside ↦ elim (lt_cases (length text) i) [
      | inr last ↦
          let e : i ≡ length text = omega arith in
          rw e (
            get_elem?-append_right text (0x80 ∷ filling) (length text) 0 (omega arith)
            ∙ ap some (sym padded_mark))
      | inl behind ↦ elim (lt_cases (i + 8) (total text)) [
        | inl zero_byte ↦
            message_behind i (i - length text - 1) (omega arith)
            ∙ get_elem?-append_left (replicate (zeros (length text)) 0)
                (big_endian_64 (length text * 8)) _
                (omega (arith, total_lem text, length-replicate {A = ℕ} (zeros (length text)) 0))
            ∙ get_elem?-replicate (zeros (length text)) 0 _ (omega (arith, total_lem text))
            ∙ ap some (sym (padded_zero i behind zero_byte))
        | inr length_byte ↦
            message_behind i (i - length text - 1) (omega arith)
            ∙ length_bytes i small behind length_byte h
      ]
    ]
  ]

-- The loop that pads ends at a whole number of blocks, and `padded` gives, at every place, the byte that
-- stands there in the padded message of FIPS 180-4, if the text is shorter than 2^61 bytes.
pub padded-padded_message :
    (text : List ℕ) (i : ℕ)
    → length text < 2 ^ 61
    → i < total text
    → (total text % 64 ≡ 0)
      × (length (padded_message text) ≡ total text)
      × (get_elem? (padded_message text) i ≡ some (padded text i))
padded-padded_message text i small h =
    let behind = replicate (zeros (length text)) 0 ++ big_endian_64 (length text * 8) in
    let all = length-append text (0x80 ∷ behind) in
    let filled =
      length-append (replicate (zeros (length text)) 0) (big_endian_64 (length text * 8)) in
    let none_of = length-replicate {A = ℕ} (zeros (length text)) 0 in
    (
      omega (arith, total_lem text),
      omega (arith, total_lem text),
      get_elem?-padded_message text i small h,
    )
