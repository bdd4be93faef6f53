-- ===== src/Hash/Sha256.antt =====
-- `sha256` and `sha256_hex`.
use Prim.Native.Nat.{bit_and, bit_or, bit_xor}
use egl_utils_cpp.Prelude.{
  ℕ, zero, suc, ◌+◌, ◌-◌, ◌*◌, ◌/◌, ◌%◌, ◌^◌, none, some, List, [], ◌∷◌, ◌++◌, length, get_elem?,
  set, replicate, ltb, leb, ◌==◌, if◌then◌else◌, codes,
}
use egl_utils_cpp.Hash.Words.{add32, shl32, shr, not32, rotr}

abbrev pub sha256_k : List ℕ
sha256_k =
    0x428a2f98 ∷ 0x71374491 ∷ 0xb5c0fbcf ∷ 0xe9b5dba5 ∷ 0x3956c25b ∷ 0x59f111f1 ∷ 0x923f82a4
    ∷ 0xab1c5ed5 ∷ 0xd807aa98 ∷ 0x12835b01 ∷ 0x243185be ∷ 0x550c7dc3 ∷ 0x72be5d74 ∷ 0x80deb1fe
    ∷ 0x9bdc06a7 ∷ 0xc19bf174 ∷ 0xe49b69c1 ∷ 0xefbe4786 ∷ 0x0fc19dc6 ∷ 0x240ca1cc ∷ 0x2de92c6f
    ∷ 0x4a7484aa ∷ 0x5cb0a9dc ∷ 0x76f988da ∷ 0x983e5152 ∷ 0xa831c66d ∷ 0xb00327c8 ∷ 0xbf597fc7
    ∷ 0xc6e00bf3 ∷ 0xd5a79147 ∷ 0x06ca6351 ∷ 0x14292967 ∷ 0x27b70a85 ∷ 0x2e1b2138 ∷ 0x4d2c6dfc
    ∷ 0x53380d13 ∷ 0x650a7354 ∷ 0x766a0abb ∷ 0x81c2c92e ∷ 0x92722c85 ∷ 0xa2bfe8a1 ∷ 0xa81a664b
    ∷ 0xc24b8b70 ∷ 0xc76c51a3 ∷ 0xd192e819 ∷ 0xd6990624 ∷ 0xf40e3585 ∷ 0x106aa070 ∷ 0x19a4c116
    ∷ 0x1e376c08 ∷ 0x2748774c ∷ 0x34b0bcb5 ∷ 0x391c0cb3 ∷ 0x4ed8aa4a ∷ 0x5b9cca4f ∷ 0x682e6ff3
    ∷ 0x748f82ee ∷ 0x78a5636f ∷ 0x84c87814 ∷ 0x8cc70208 ∷ 0x90befffa ∷ 0xa4506ceb ∷ 0xbef9a3f7
    ∷ 0xc67178f2 ∷ []

-- An element of an array or a text, at an index that is in bounds.
abbrev pub at : List ℕ → ℕ → ℕ
at xs i = elim (get_elem? xs i) [ none ↦ 0 | some x ↦ x ]

-- `while (total % 64 != 56) ++total;`, which ends within 63 rounds.
unfoldable pub pad_total : ℕ → ℕ → ℕ
pad_total zero total = total
pad_total (suc fuel) total =
    let next = pad_total fuel (total + 1) in if total % 64 == 56 then total else next

-- The length of the padded message.
unfoldable pub total : List ℕ → ℕ
unfolding pad_total
total text = pad_total 63 (length text + 1) + 8

abbrev pub bitlen : List ℕ → ℕ
bitlen text = length text * 8 % 2 ^ 64

-- The i-th byte of the padded message.
unfoldable pub padded : List ℕ → ℕ → ℕ
unfolding total
padded text i =
    if ltb i (length text)
    then at text i
    else if i == length text
    then 0x80
    else if leb (total text - 8) i
    then bit_and 0xff (bitlen text / 2 ^ ((total text - 1 - i) * 8))
    else 0

-- `w[t]` for `t < 16`.
abbrev pub first_word : List ℕ → ℕ → ℕ → ℕ
first_word text blk t =
    let base = blk * 64 + t * 4 in
    bit_or
      (bit_or (bit_or (shl32 (padded text base) 24) (shl32 (padded text (base + 1)) 16))
        (shl32 (padded text (base + 2)) 8))
      (padded text (base + 3))

-- The loop `for (t = 0; t < 16; ++t)`; the fuel counts the rounds.
abbrev pub fill : ℕ → ℕ → List ℕ → ℕ → List ℕ → List ℕ
fill zero t text blk w = w
fill (suc fuel) t text blk w = fill fuel (t + 1) text blk (set w t (first_word text blk t))

abbrev pub next_word : List ℕ → ℕ → ℕ
next_word w t =
    let x = at w (t - 15) in
    let s0 = bit_xor (bit_xor (rotr x 7) (rotr x 18)) (shr x 3) in
    let y = at w (t - 2) in
    let s1 = bit_xor (bit_xor (rotr y 17) (rotr y 19)) (shr y 10) in
    add32 (add32 (add32 (at w (t - 16)) s0) (at w (t - 7))) s1

-- The loop `for (t = 16; t < 64; ++t)`.
abbrev pub extend : ℕ → ℕ → List ℕ → List ℕ
extend zero t w = w
extend (suc fuel) t w = extend fuel (t + 1) (set w t (next_word w t))

abbrev pub schedule : List ℕ → ℕ → List ℕ
schedule text blk = extend 48 16 (fill 16 0 text blk (replicate 64 0))

-- The array `h`, and the variables `a` to `hh`.
pub record State : Type 0 where
  pub a : ℕ
  pub b : ℕ
  pub c : ℕ
  pub d : ℕ
  pub e : ℕ
  pub f : ℕ
  pub g : ℕ
  pub hh : ℕ

abbrev pub initial : State
initial = record {
  a = 0x6a09e667;
  b = 0xbb67ae85;
  c = 0x3c6ef372;
  d = 0xa54ff53a;
  e = 0x510e527f;
  f = 0x9b05688c;
  g = 0x1f83d9ab;
  hh = 0x5be0cd19;
}

abbrev pub round : State → ℕ → ℕ → State
round s k w =
    let s1 = bit_xor (bit_xor (rotr s.e 6) (rotr s.e 11)) (rotr s.e 25) in
    let ch = bit_xor (bit_and s.e s.f) (bit_and (not32 s.e) s.g) in
    let temp1 = add32 (add32 (add32 (add32 s.hh s1) ch) k) w in
    let s0 = bit_xor (bit_xor (rotr s.a 2) (rotr s.a 13)) (rotr s.a 22) in
    let maj = bit_xor (bit_xor (bit_and s.a s.b) (bit_and s.a s.c)) (bit_and s.b s.c) in
    let temp2 = add32 s0 maj in
    record {
      a = add32 temp1 temp2;
      b = s.a;
      c = s.b;
      d = s.c;
      e = add32 s.d temp1;
      f = s.e;
      g = s.f;
      hh = s.g;
    }

-- The loop over `t` for the elements of `sha256_k` and `w` at `t`.
abbrev pub rounds : List ℕ → List ℕ → State → State
rounds (k ∷ ks) (w ∷ ws) s = rounds ks ws (round s k w)
rounds _ _ s = s

abbrev pub add_state : State → State → State
add_state h s = record {
  a = add32 h.a s.a;
  b = add32 h.b s.b;
  c = add32 h.c s.c;
  d = add32 h.d s.d;
  e = add32 h.e s.e;
  f = add32 h.f s.f;
  g = add32 h.g s.g;
  hh = add32 h.hh s.hh;
}

-- One block.
unfoldable pub compress : List ℕ → ℕ → State → State
unfolding padded
compress text blk h = add_state h (rounds sha256_k (schedule text blk) h)

-- The loop over the blocks; the fuel counts the rounds.
unfoldable pub blocks : ℕ → ℕ → List ℕ → State → State
unfolding compress
blocks zero blk text h = h
blocks (suc fuel) blk text h = blocks fuel (blk + 1) text (compress text blk h)

-- A word as its four bytes, the highest first.
abbrev pub word_bytes : ℕ → List ℕ
word_bytes x = shr x 24 % 256 ∷ shr x 16 % 256 ∷ shr x 8 % 256 ∷ x % 256 ∷ []

abbrev pub digest_bytes : State → List ℕ
digest_bytes h =
    word_bytes h.a
    ++ (word_bytes h.b
        ++ (word_bytes h.c
            ++ (word_bytes h.d
                ++ (word_bytes h.e ++ (word_bytes h.f ++ (word_bytes h.g ++ word_bytes h.hh))))))

unfoldable pub sha256 : List ℕ → List ℕ
unfolding total blocks
sha256 text = digest_bytes (blocks (total text / 64) 0 text initial)

abbrev pub hex_digit : ℕ → ℕ
hex_digit n = at (codes "0123456789abcdef") n

abbrev pub hex_bytes : List ℕ → List ℕ
hex_bytes [] = []
hex_bytes (x ∷ digest) =
    hex_digit (bit_and 0x0f (shr x 4)) ∷ hex_digit (bit_and 0x0f x) ∷ hex_bytes digest

unfoldable pub sha256_hex : List ℕ → List ℕ
unfolding sha256
sha256_hex text = hex_bytes (sha256 text)
