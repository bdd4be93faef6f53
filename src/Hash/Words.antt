-- ===== src/Hash/Words.antt =====
-- `std::uint32_t`: arithmetic that wraps, shifts and rotations.
use Prim.Native.Nat.{bit_or}
use egl_utils_cpp.Prelude.{ℕ, ◌+◌, ◌-◌, ◌*◌, ◌/◌, ◌%◌, ◌^◌}

abbrev pub add32 : ℕ → ℕ → ℕ
add32 a b = (a + b) % 2 ^ 32

abbrev pub mul32 : ℕ → ℕ → ℕ
mul32 a b = a * b % 2 ^ 32

-- `a << n` and `a >> n`.
abbrev pub shl32 : ℕ → ℕ → ℕ
shl32 a n = a * 2 ^ n % 2 ^ 32

abbrev pub shr : ℕ → ℕ → ℕ
shr a n = a / 2 ^ n

-- `~a`.
abbrev pub not32 : ℕ → ℕ
not32 a = 2 ^ 32 - 1 - a

-- `(x << n) | (x >> (32 - n))`, as murmur3_x86_32 writes it out.
abbrev pub rotl : ℕ → ℕ → ℕ
rotl x n = bit_or (shl32 x n) (shr x (32 - n))

abbrev pub rotr : ℕ → ℕ → ℕ
rotr x n = bit_or (shr x n) (shl32 x (32 - n))
