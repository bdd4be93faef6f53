-- ===== src/StringBuilder/Decimal.antt =====
-- The base-10 text of an integer, as `std::to_chars` writes it.
use egl_utils_cpp.Prelude.{ℕ, zero, suc, ◌+◌, ◌/◌, ◌%◌, List, [], ◌∷◌, ◌++◌, ltb, if◌then◌else◌}
use egl_utils_cpp.Prelude.Int.{ℤ, pos, negsuc}

-- The fuel counts digits in front of the last. A 64-bit integer has 20 at most.
unfoldable pub decimal_digits : ℕ → ℕ → List ℕ
decimal_digits zero n = (b'0' + n % 10) ∷ []
decimal_digits (suc fuel) n =
    let front = decimal_digits fuel (n / 10) in
    if ltb n 10 then (b'0' + n) ∷ [] else front ++ ((b'0' + n % 10) ∷ [])

unfoldable pub decimal : ℕ → List ℕ
decimal n = decimal_digits 19 n

unfoldable pub integer : ℤ → List ℕ
integer (pos n) = decimal n
integer (negsuc n) = b'-' ∷ decimal (suc n)
