-- ===== src/Hash/Bits.antt =====
-- Operations on binary digits.
use Prim.Native.Nat.{digits, differ, min, max, bit_xor, bit_or, bit_xor-bitwise, bit_or-bitwise}
use egl_utils_cpp.Prelude.{ℕ, zero, suc, ◌*◌, ◌/◌, ◌%◌, ◌<◌, ◌≡◌, arith}

abbrev pub power : ℕ → ℕ
power zero = 1
power (suc k) = 2 * power k

digits_bound :
    (f : ℕ → ℕ → ℕ)
    → ((x y : ℕ) → x < 2 → y < 2 → f x y < 2)
    → (k n a b : ℕ) → a < power k
    → b < power k
    → digits (λ y. y) f n a b < power k
digits_bound f small k zero a b p q = q
digits_bound f small k (suc n) zero b p q = q
digits_bound f small zero (suc n) (suc a) b p q = absurd (omega arith)
digits_bound f small (suc k) (suc n) (suc a) b p q =
    let rest = digits_bound f small k n (suc a / 2) (b / 2) (omega arith) (omega arith) in
    let last = small (suc a % 2) (b % 2) (omega arith) (omega arith) in omega arith

differ_small : (x y : ℕ) → x < 2 → y < 2 → differ x y < 2
differ_small zero y p q = q
differ_small (suc x) zero p q = p
differ_small (suc zero) (suc zero) p q = omega arith
differ_small (suc zero) (suc (suc y)) p q = absurd (omega arith)
differ_small (suc (suc x)) (suc y) p q = absurd (omega arith)

pub bit_xor_bound : (k a b : ℕ) → a < power k → b < power k → bit_xor a b < power k
bit_xor_bound k a b p q = simp bit_xor-bitwise (digits_bound differ differ_small k a a b p q)

pub bit_or_bound : (k a b : ℕ) → a < power k → b < power k → bit_or a b < power k
bit_or_bound k a b p q = simp bit_or-bitwise (digits_bound max (λ x y p q. omega arith) k a a b p q)

pub low_bit : (y : ℕ) → min 1 (y % 2) ≡ y % 2
low_bit y = omega arith
