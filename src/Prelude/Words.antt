-- ===== src/Prelude/Words.antt =====
-- `std::size_t` of the supported platforms: 64 bits, with arithmetic that wraps.
use Prim.Native.Nat.{ℕ, ◌+◌, ◌-◌, ◌%◌, ◌^◌}

-- `a + b` and `a - b` on `std::size_t` values.
abbrev pub add_size : ℕ → ℕ → ℕ
add_size a b = (a + b) % 2 ^ 64

abbrev pub sub_size : ℕ → ℕ → ℕ
sub_size a b = (a + 2 ^ 64 - b) % 2 ^ 64

-- No `std::vector`, `std::span` or `std::string_view` is longer than `PTRDIFF_MAX`.
abbrev pub max_size : ℕ
max_size = 2 ^ 63 - 1
