-- ===== src/Hash.antt =====
-- src/main/cpp/it/d4np/util/hash.hpp: FNV-1a and MurmurHash3; `Sha256` has the rest. A text is the list of
-- its bytes.
pub mod Words
pub mod Sha256
pub mod Bits
pub mod Bounds
pub mod Padding
pub mod Hex
mod Tests
use Prim.Native.Nat.{bit_or, bit_xor}
use egl_utils_cpp.Prelude.{ℕ, ◌+◌, ◌*◌, ◌%◌, ◌^◌, List, [], ◌∷◌, length}
use Words.{add32, mul32, shl32, shr, rotl}

abbrev pub fnv_loop_64 : ℕ → List ℕ → ℕ
fnv_loop_64 hash [] = hash
fnv_loop_64 hash (ch ∷ text) = fnv_loop_64 (bit_xor hash ch * 0x100000001b3 % 2 ^ 64) text

abbrev pub fnv1a_64 : List ℕ → ℕ
fnv1a_64 text = fnv_loop_64 0xcbf29ce484222325 text

abbrev pub fnv_loop_32 : ℕ → List ℕ → ℕ
fnv_loop_32 hash [] = hash
fnv_loop_32 hash (ch ∷ text) = fnv_loop_32 (mul32 (bit_xor hash ch) 0x01000193) text

abbrev pub fnv1a_32 : List ℕ → ℕ
fnv1a_32 text = fnv_loop_32 0x811c9dc5 text

-- What a block or the tail goes through before it is mixed in.
abbrev pub scramble : ℕ → ℕ
scramble k1 = mul32 (rotl (mul32 k1 0xcc9e2d51) 15) 0x1b873593

abbrev pub mix_block : ℕ → ℕ → ℕ → ℕ → ℕ → ℕ
mix_block h1 a b c d =
    let k1 = bit_or (bit_or (bit_or a (shl32 b 8)) (shl32 c 16)) (shl32 d 24) in
    add32 (mul32 (rotl (bit_xor h1 (scramble k1)) 13) 5) 0xe6546b64

-- The blocks of four bytes, and the tail.
abbrev pub murmur_blocks : ℕ → List ℕ → ℕ × List ℕ
murmur_blocks h1 (a ∷ b ∷ c ∷ d ∷ rest) = murmur_blocks (mix_block h1 a b c d) rest
murmur_blocks h1 tail = (h1, tail)

-- `switch (len & 3)`.
abbrev pub mix_tail : ℕ → List ℕ → ℕ
mix_tail h1 (a ∷ b ∷ c ∷ _) =
    bit_xor h1 (scramble (bit_xor (bit_xor (bit_xor 0 (shl32 c 16)) (shl32 b 8)) a))
mix_tail h1 (a ∷ b ∷ []) = bit_xor h1 (scramble (bit_xor (bit_xor 0 (shl32 b 8)) a))
mix_tail h1 (a ∷ []) = bit_xor h1 (scramble (bit_xor 0 a))
mix_tail h1 [] = h1

abbrev pub finalize : ℕ → ℕ → ℕ
finalize len h0 =
    let h1 = bit_xor h0 (len % 2 ^ 32) in
    let h2 = mul32 (bit_xor h1 (shr h1 16)) 0x85ebca6b in
    let h3 = mul32 (bit_xor h2 (shr h2 13)) 0xc2b2ae35 in bit_xor h3 (shr h3 16)

unfoldable pub murmur3_x86_32 : List ℕ → ℕ → ℕ
murmur3_x86_32 text seed =
    let (h1, tail) = murmur_blocks seed text in finalize (length text) (mix_tail h1 tail)
