-- ===== src/StringBuilder/Width.antt =====
-- How wide the text of an integer is.
use egl_utils_cpp.Prelude.{ℕ, zero, suc, ◌+◌, ◌/◌, ◌%◌, ◌≤◌, [], ◌∷◌, length, length-append, arith}
use egl_utils_cpp.Prelude.Int.{ℤ, pos, negsuc}
use egl_utils_cpp.StringBuilder.Decimal.{decimal_digits, decimal, integer}

length-decimal_digits : (f n : ℕ) → length (decimal_digits f n) ≤ suc f
unfolding decimal_digits
length-decimal_digits zero n = omega arith
length-decimal_digits (suc f) n =
    let front = length-decimal_digits f (n / 10) in
    let all = length-append (decimal_digits f (n / 10)) ((b'0' + n % 10) ∷ []) in ground arith

pub length-integer : (v : ℤ) → length (integer v) ≤ 21
unfolding integer decimal
length-integer (pos n) = omega (arith, length-decimal_digits 19 n)
length-integer (negsuc n) = omega (arith, length-decimal_digits 19 (suc n))
