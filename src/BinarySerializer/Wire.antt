-- ===== src/BinarySerializer/Wire.antt =====
-- The wire format that `BinarySerializer` promises: a sequence of fields, each laid down in the
-- chosen byte order, whatever the host.
use egl_utils_cpp.Prelude.{
  ℕ, ◌+◌, ◌-◌, ◌^◌, ◌≤◌, ◌<◌, ◌≡◌, refl, ap, ◌∙◌, Bool, true, false, List, [], ◌∷◌, ◌++◌, ◌&&◌,
  length, arith, leb, if◌then◌else◌,
}
use egl_utils_cpp.BinarySerializer.Bytes.{
  Endian, little, big, same_order, reverse_bytes, little_bytes, bit_cast_to, bit_cast_from,
  from_little-little_bytes, reverse_bytes-reverse_bytes, length-little_bytes, length-reverse_bytes,
}

-- What a client writes: a scalar of `size` bytes, or a block of raw bytes.
pub data Field : Type 0 where
  scalar : ℕ → ℕ → Field
  raw : List ℕ → Field

abbrev pub IsField : Field → Type 0
IsField (scalar size value) = value < 256 ^ size
IsField (raw bytes) = Unit {0}

abbrev pub AreFields : List Field → Type 0
AreFields [] = Unit {0}
AreFields (f ∷ fs) = IsField f × AreFields fs

pub wire : Endian → Field → List ℕ
wire little (scalar size value) = little_bytes size value
wire big (scalar size value) = reverse_bytes (little_bytes size value)
wire order (raw bytes) = bytes

unfoldable pub wire_all : Endian → List Field → List ℕ
wire_all order [] = []
wire_all order (f ∷ fs) = wire order f ++ wire_all order fs

abbrev pub field_size : Field → ℕ
field_size (scalar size value) = size
field_size (raw bytes) = length bytes

-- Of the fields, in order, those that a buffer with `room` bytes takes: a field that does not fit is
-- left out, and a later one may still fit.
unfoldable pub accepted : ℕ → List Field → List Field
accepted room [] = []
accepted room (f ∷ fs) =
    let kept = f ∷ accepted (room - field_size f) fs in
    let left_out = accepted room fs in if leb (field_size f) room then kept else left_out

-- The answers to the writes of these fields.
unfoldable pub verdicts : ℕ → List Field → List Bool
verdicts room [] = []
verdicts room (f ∷ fs) =
    let fits = true ∷ verdicts (room - field_size f) fs in
    let full = false ∷ verdicts room fs in if leb (field_size f) room then fits else full

abbrev pub all_true : List Bool → Bool
all_true [] = true
all_true (b ∷ bs) = b && all_true bs

abbrev pub total_size : List Field → ℕ
total_size [] = 0
total_size (f ∷ fs) = field_size f + total_size fs

-- Fields that fit together are all accepted.
pub all-accepted :
    (room : ℕ) (fs : List Field)
    → total_size fs ≤ room
    → (accepted room fs ≡ fs) × (all_true (verdicts room fs) ≡ true)
unfolding accepted verdicts
all-accepted room [] h = (refl, refl)
all-accepted room (f ∷ fs) h =
    let (kept, yes_all) = all-accepted (room - field_size f) fs (omega arith) in
    let fits : leb (field_size f) room ≡ true = ground arith in
    rw fits (ap (λ r. f ∷ r) kept, yes_all)

pub wire-raw : (order : Endian) (bytes : List ℕ) → wire order (raw bytes) ≡ bytes
unfolding wire
wire-raw little bytes = refl
wire-raw big bytes = refl

pub length-wire : (order : Endian) (f : Field) → length (wire order f) ≡ field_size f
unfolding wire
length-wire little (scalar size value) = length-little_bytes size value
length-wire big (scalar size value) =
    length-reverse_bytes (little_bytes size value) ∙ length-little_bytes size value
length-wire little (raw bytes) = refl
length-wire big (raw bytes) = refl

-- Reversing where the orders differ gives the wire order, on every host.
pub ordered-eq-wire :
    (order native : Endian) (size value : ℕ)
    → (if same_order order native
        then bit_cast_to native size value
        else reverse_bytes (bit_cast_to native size value))
      ≡ wire order (scalar size value)
unfolding bit_cast_to wire
ordered-eq-wire little little size value = refl
ordered-eq-wire little big size value = reverse_bytes-reverse_bytes (little_bytes size value)
ordered-eq-wire big little size value = refl
ordered-eq-wire big big size value = refl

-- ... and back, on the same host or another.
pub unordered-wire :
    (order native : Endian) (size value : ℕ)
    → value < 256 ^ size
    → let bytes = wire order (scalar size value) in
      bit_cast_from native (if same_order order native then bytes else reverse_bytes bytes) ≡ value
unfolding bit_cast_from wire
unordered-wire little little size value h = from_little-little_bytes size value h
unordered-wire little big size value h =
    rw reverse_bytes-reverse_bytes (from_little-little_bytes size value h)
unordered-wire big little size value h =
    rw reverse_bytes-reverse_bytes (from_little-little_bytes size value h)
unordered-wire big big size value h =
    rw reverse_bytes-reverse_bytes (from_little-little_bytes size value h)
