-- ===== src/Hash/Bounds.antt =====
-- The hashes as machine words.
use Prim.Native.Nat.{bit_xor}
use egl_utils_cpp.Prelude.{ℕ, ◌%◌, ◌^◌, ◌<◌, List, [], ◌∷◌, length, arith}
use egl_utils_cpp.Hash.{
  fnv_loop_64, fnv1a_64, fnv_loop_32, fnv1a_32, murmur_blocks, mix_tail, finalize, murmur3_x86_32,
}
use egl_utils_cpp.Hash.Words.{mul32, shr}
use egl_utils_cpp.Hash.Bits.{bit_xor_bound}

fnv_loop_64_bound : (text : List ℕ) (hash : ℕ) → hash < 2 ^ 64 → fnv_loop_64 hash text < 2 ^ 64
fnv_loop_64_bound [] hash h = h
fnv_loop_64_bound (ch ∷ text) hash h = fnv_loop_64_bound text _ (omega arith)

fnv_loop_32_bound : (text : List ℕ) (hash : ℕ) → hash < 2 ^ 32 → fnv_loop_32 hash text < 2 ^ 32
fnv_loop_32_bound [] hash h = h
fnv_loop_32_bound (ch ∷ text) hash h = fnv_loop_32_bound text _ (omega arith)

finalize_bound : (len h0 : ℕ) → finalize len h0 < 2 ^ 32
finalize_bound len h0 =
    let h1 = bit_xor h0 (len % 2 ^ 32) in
    let h2 = mul32 (bit_xor h1 (shr h1 16)) 0x85ebca6b in
    let h3 = mul32 (bit_xor h2 (shr h2 13)) 0xc2b2ae35 in
    bit_xor_bound 32 h3 (shr h3 16) (omega arith) (omega arith)

-- The hashes of every text are values of their types: below 2^64 for `fnv1a_64`, and below 2^32 for
-- `fnv1a_32` and `murmur3_x86_32` with any seed.
pub hash_bounds :
    (text : List ℕ) (seed : ℕ)
    → (fnv1a_64 text < 2 ^ 64) × (fnv1a_32 text < 2 ^ 32) × (murmur3_x86_32 text seed < 2 ^ 32)
unfolding murmur3_x86_32
hash_bounds text seed =
    let (h1, tail) = murmur_blocks seed text in
    (
      fnv_loop_64_bound text 0xcbf29ce484222325 (omega arith),
      fnv_loop_32_bound text 0x811c9dc5 (omega arith),
      finalize_bound (length text) (mix_tail h1 tail),
    )
