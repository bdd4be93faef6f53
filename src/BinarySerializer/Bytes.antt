-- ===== src/BinarySerializer/Bytes.antt =====
-- Byte orders, and the object representation that `std::bit_cast` gives a scalar.
use native.Mathlib.Nat.{pow-suc}
use egl_utils_cpp.Prelude.{
  ℕ, zero, suc, ◌+◌, ◌*◌, ◌/◌, ◌%◌, ◌^◌, ◌<◌, ◌≡◌, refl, ap, ◌∙◌, Bool, true, false, List, [], ◌∷◌,
  ◌++◌, length, length-append, arith,
}

pub data Endian : Type 0 where
  little big : Endian

abbrev pub same_order : Endian → Endian → Bool
same_order little little = true
same_order little big = false
same_order big little = false
same_order big big = true

-- `std::ranges::reverse`.
unfoldable pub reverse_bytes : List ℕ → List ℕ
reverse_bytes [] = []
reverse_bytes (b ∷ r) = reverse_bytes r ++ (b ∷ [])

-- The bytes of a number, least significant first.
unfoldable pub little_bytes : ℕ → ℕ → List ℕ
little_bytes zero value = []
little_bytes (suc size) value = (value % 256) ∷ little_bytes size (value / 256)

pub from_little : List ℕ → ℕ
from_little [] = 0
from_little (b ∷ r) = b + 256 * from_little r

-- `std::bit_cast` between a scalar and the bytes of its representation on the host.
unfoldable pub bit_cast_to : Endian → ℕ → ℕ → List ℕ
bit_cast_to little size value = little_bytes size value
bit_cast_to big size value = reverse_bytes (little_bytes size value)

unfoldable pub bit_cast_from : Endian → List ℕ → ℕ
bit_cast_from little raw = from_little raw
bit_cast_from big raw = from_little (reverse_bytes raw)

pub length-little_bytes : (size value : ℕ) → length (little_bytes size value) ≡ size
unfolding little_bytes
length-little_bytes zero value = refl
length-little_bytes (suc size) value = ap suc (length-little_bytes size (value / 256))

pub length-reverse_bytes : (l : List ℕ) → length (reverse_bytes l) ≡ length l
unfolding reverse_bytes
length-reverse_bytes [] = refl
length-reverse_bytes (b ∷ r) =
    omega (arith, length-append (reverse_bytes r) (b ∷ []), length-reverse_bytes r)

pub length-bit_cast_to :
    (native : Endian) (size value : ℕ) → length (bit_cast_to native size value) ≡ size
unfolding bit_cast_to
length-bit_cast_to little size value = length-little_bytes size value
length-bit_cast_to big size value =
    length-reverse_bytes (little_bytes size value) ∙ length-little_bytes size value

reverse_bytes-append : (l : List ℕ) (b : ℕ) → reverse_bytes (l ++ (b ∷ [])) ≡ b ∷ reverse_bytes l
unfolding reverse_bytes
reverse_bytes-append [] b = refl
reverse_bytes-append (c ∷ r) b = rw (reverse_bytes-append r b)

pub reverse_bytes-reverse_bytes : (l : List ℕ) → reverse_bytes (reverse_bytes l) ≡ l
unfolding reverse_bytes
reverse_bytes-reverse_bytes [] = refl
reverse_bytes-reverse_bytes (b ∷ r) =
    rw (reverse_bytes-append (reverse_bytes r) b) (ap (λ l. b ∷ l) (reverse_bytes-reverse_bytes r))

-- A number below `256 ^ size` is read back from its bytes.
pub from_little-little_bytes :
    (size value : ℕ) → value < 256 ^ size → from_little (little_bytes size value) ≡ value
unfolding from_little little_bytes
from_little-little_bytes zero value h = omega arith
from_little-little_bytes (suc size) value h =
    let rest : from_little (little_bytes size (value / 256)) ≡ value / 256 =
      from_little-little_bytes size (value / 256) (omega (arith, pow-suc 256 size)) in
    rw rest (omega arith)
