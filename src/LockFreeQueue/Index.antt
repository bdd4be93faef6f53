-- ===== src/LockFreeQueue/Index.antt =====
-- lock_free_queue.hpp: the index of a ticket, and the gap between a sequence and a ticket.
use Prim.Native.Nat.{bit_and, bit_and-bitwise, digits}
use native.Mathlib.Nat.{
  div-add-mod, mul-le-mul_left, mul-suc, pow-succ', add-mul-mod_self_left, mod-eq_of_lt, mod-lt,
  mul_assoc, zero-mod, mod-one,
}
use egl_utils_cpp.LockFreeQueue.{gap, vanishing, negative}
use egl_utils_cpp.Prelude.{
  ℕ, zero, suc, ◌+◌, ◌-◌, ◌*◌, ◌/◌, ◌%◌, ◌^◌, ◌≤◌, ◌<◌, min, ◌≡◌, ◌≢◌, sym, ◌∙◌, ap, ap₂, inl, inr,
  arith, lt_cases,
}

-- Different tickets of one slot are a lap apart.
pub lap_apart : (n a b : ℕ) → a % n ≡ b % n → a < b → a + n ≤ b
lap_apart n a b e h = elim (lt_cases (a / n) (b / n)) [
  | inl lt ↦
      let more : n * suc (a / n) ≤ n * (b / n) = mul-le-mul_left n lt in
      omega (arith, mul-suc n (a / n), div-add-mod a n, div-add-mod b n, more)
  | inr le ↦
      let less : n * (b / n) ≤ n * (a / n) = mul-le-mul_left n le in
      absurd (omega (arith, div-add-mod a n, div-add-mod b n, less))
]

pow_positive : (k : ℕ) → 0 < 2 ^ k
pow_positive zero = omega arith
pow_positive (suc k) = omega (arith, pow-succ' 2 k, pow_positive k)

digit_step : (x p : ℕ) → 0 < p → (x / 2) % p * 2 + x % 2 ≡ x % (2 * p)
digit_step x p h =
    let q = x / 2 / p in
    let r = (x / 2) % p in
    let small : r < p = mod-lt (x / 2) h in
    let split : x ≡ (r * 2 + x % 2) + 2 * p * q =
      omega (arith, div-add-mod (x / 2) p, mul_assoc 2 p q) in
    sym (
      ap (λ y. y % (2 * p)) split
      ∙ add-mul-mod_self_left (r * 2 + x % 2) (2 * p) q
      ∙ mod-eq_of_lt (omega arith))

digits-mask : (n a k : ℕ) → a ≤ n → digits (λ b. zero) min n a (2 ^ k - 1) ≡ a % 2 ^ k
digits-mask zero zero k h = sym (zero-mod (2 ^ k))
digits-mask zero (suc a) k h = absurd (omega arith)
digits-mask (suc n) zero k h = sym (zero-mod (2 ^ k))
digits-mask (suc n) (suc a) zero h =
    let rest : digits (λ b. zero) min n (suc a / 2) 0 ≡ 0 =
      digits-mask n (suc a / 2) zero (omega arith) ∙ mod-one (suc a / 2) in
    ap (λ x. x * 2 + min (suc a % 2) 0) rest ∙ omega (arith, mod-one (suc a))
digits-mask (suc n) (suc a) (suc k) h =
    let p = pow_positive k in
    let e = pow-succ' 2 k in
    let front : digits (λ b. zero) min n (suc a / 2) ((2 ^ suc k - 1) / 2) ≡ (suc a / 2) % 2 ^ k =
      ap (λ m. digits (λ b. zero) min n (suc a / 2) m) (omega arith)
      ∙ digits-mask n (suc a / 2) k (omega arith) in
    let last : min (suc a % 2) ((2 ^ suc k - 1) % 2) ≡ suc a % 2 = omega arith in
    ap₂ (λ x y. x * 2 + y) front last ∙ digit_step (suc a) (2 ^ k) p ∙ ap (λ m. suc a % m) (sym e)

-- `pos & mask_` is the remainder by the capacity, which is a power of two.
pub bit_and-mask : (pos k : ℕ) → bit_and pos (2 ^ k - 1) ≡ pos % 2 ^ k
bit_and-mask pos k = simp bit_and-bitwise (digits-mask pos pos k (omega arith))

pub residue_suc : (n p : ℕ) → 2 ≤ n → suc p % n ≢ p % n
residue_suc n p h e = omega (arith, lap_apart n p (suc p) (sym e) (omega arith))

pub gap_vanishing : (s p : ℕ) → s < 2 ^ 64 → p < 2 ^ 64 → gap s p ≡ vanishing → s ≡ p
unfolding gap
gap_vanishing s p a b h = ground arith

pub gap_negative : (s p : ℕ) → s < 2 ^ 63 → p < 2 ^ 63 → gap s p ≡ negative → s < p
unfolding gap
gap_negative s p a b h = ground arith
