-- ===== src/BinarySerializer/Write.antt =====
-- What a sequence of writes leaves in the buffer of the caller.
use egl_utils_cpp.Prelude.{
  ℕ, ◌+◌, ◌-◌, ◌≤◌, ◌<◌, ◌≡◌, Bool, true, false, List, [], ◌∷◌, ◌++◌, length, length-append, arith,
  ltb, if◌then◌else◌, take, drop, take-append_eq, drop-append_eq, length-take, length-drop,
  add_size, max_size, append_assoc,
}
use egl_utils_cpp.BinarySerializer.{
  BinarySerializer, written, remaining, copy_at, write_bytes, write_raw, write,
}
use egl_utils_cpp.BinarySerializer.Bytes.{
  Endian, bit_cast_to, same_order, reverse_bytes, length-bit_cast_to,
}
use egl_utils_cpp.BinarySerializer.Wire.{
  Field, scalar, raw, wire, field_size, length-wire, ordered-eq-wire, wire-raw,
}

-- A client's write of a field.
unfoldable pub write_field : Endian → BinarySerializer → Field → Bool × BinarySerializer
write_field native s (scalar size value) = write native s size value
write_field native s (raw bytes) = write_bytes s bytes

-- Several writes, with the answer of each.
unfoldable pub write_all : Endian → BinarySerializer → List Field → List Bool × BinarySerializer
write_all native s [] = ([], s)
write_all native s (f ∷ fs) =
    let (done, s') = write_field native s f in
    let (answers, s'') = write_all native s' fs in (done ∷ answers, s'')

pub record IsValid (s : BinarySerializer) : Type 0 where
  pub small : length s.buffer ≤ max_size
  pub pos_in : s.pos ≤ length s.buffer

abbrev pub room : BinarySerializer → ℕ
room s = length s.buffer - s.pos

-- The serializer after a block of bytes that fits.
abbrev pub appended : BinarySerializer → List ℕ → BinarySerializer
appended s src = record s { buffer = copy_at s.buffer s.pos src; pos = s.pos + length src }

-- A block that fits is appended to the bytes written, and changes no byte beyond it.
pub appended_lem :
    {s : BinarySerializer} (src : List ℕ)
    → IsValid s
    → length src ≤ room s
    → (written (appended s src) ≡ written s ++ src)
      × (drop (s.pos + length src) (appended s src).buffer ≡ drop (s.pos + length src) s.buffer)
      × (length (appended s src).buffer ≡ length s.buffer)
unfolding copy_at
appended_lem {s} src v h =
    let head : List ℕ = take s.pos s.buffer in
    let rest : List ℕ = drop (s.pos + length src) s.buffer in
    let size : s.pos + length src ≡ length (head ++ src) =
      omega (arith, length-append head src, length-take s.pos s.buffer) in
    (
      rw (← append_assoc head src rest)
          (take-append_eq (s.pos + length src) (head ++ src) rest size),
      rw (← append_assoc head src rest)
          (drop-append_eq (s.pos + length src) (head ++ src) rest size),
      rw (← append_assoc head src rest) (
          omega
            (arith, length-append (head ++ src) rest, length-drop (s.pos + length src) s.buffer)),
    )

write_bytes-fits :
    {s : BinarySerializer} (src : List ℕ)
    → IsValid s
    → length src ≤ room s
    → write_bytes s src ≡ (true, appended s src)
unfolding write_bytes
write_bytes-fits {s} src v h =
    let fits : ltb (remaining s) (length src) ≡ false = ground arith in
    let next : add_size s.pos (length src) ≡ s.pos + length src = omega arith in rw (fits, next)

write_bytes-full :
    {s : BinarySerializer} (src : List ℕ)
    → IsValid s
    → room s < length src
    → write_bytes s src ≡ (false, record s { overflowed = true })
unfolding write_bytes
write_bytes-full {s} src v h =
    let full : ltb (remaining s) (length src) ≡ true = ground arith in rw full

write_raw-fits :
    (native : Endian) {s : BinarySerializer} (bytes wired : List ℕ)
    → IsValid s
    → length bytes ≤ room s
    → (if same_order s.order native then bytes else reverse_bytes bytes) ≡ wired
    → length wired ≡ length bytes
    → write_raw native s bytes ≡ (true, appended s wired)
unfolding write_raw
write_raw-fits native {s} bytes wired v h e l =
    let fits : ltb (remaining s) (length bytes) ≡ false = ground arith in
    let next : add_size s.pos (length bytes) ≡ s.pos + length wired = omega arith in
    rw (fits, e, next)

write_raw-full :
    (native : Endian) {s : BinarySerializer} (bytes : List ℕ)
    → IsValid s
    → room s < length bytes
    → write_raw native s bytes ≡ (false, record s { overflowed = true })
unfolding write_raw
write_raw-full native {s} bytes v h =
    let full : ltb (remaining s) (length bytes) ≡ true = ground arith in rw full

pub write_field-fits :
    (native : Endian) {s : BinarySerializer} (f : Field)
    → IsValid s
    → field_size f ≤ room s
    → write_field native s f ≡ (true, appended s (wire s.order f))
unfolding write_field write
write_field-fits native {s} (scalar size value) v h =
    let bytes = bit_cast_to native size value in
    let wired = wire s.order (scalar size value) in
    let l = length-bit_cast_to native size value in
    let k = length-wire s.order (scalar size value) in
    write_raw-fits native bytes wired v (omega arith) (ordered-eq-wire s.order native size value)
      (omega arith)
write_field-fits native {s} (raw bytes) v h = rw wire-raw (write_bytes-fits bytes v h)

pub write_field-full :
    (native : Endian) {s : BinarySerializer} (f : Field)
    → IsValid s
    → room s < field_size f
    → write_field native s f ≡ (false, record s { overflowed = true })
unfolding write_field write
write_field-full native {s} (scalar size value) v h =
    let l = length-bit_cast_to native size value in
    write_raw-full native (bit_cast_to native size value) v (omega arith)
write_field-full native {s} (raw bytes) v h = write_bytes-full bytes v h
