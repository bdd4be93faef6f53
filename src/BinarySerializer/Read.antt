-- ===== src/BinarySerializer/Read.antt =====
-- What is read back from the bytes that a serializer has written.
use egl_utils_cpp.Prelude.{
  ℕ, ◌+◌, ◌-◌, ◌≤◌, ◌≡◌, refl, sym, ap, ◌∙◌, true, false, Option, none, some, List, [], ◌∷◌, ◌++◌,
  length, length-append, arith, ltb, take, drop, not, length-take, take-append_eq, drop-append_eq,
  add_size, max_size, append_assoc,
}
use egl_utils_cpp.BinarySerializer.{
  serializer, written, BinaryDeserializer, deserializer, unread_size, exhausted, read, read_bytes,
}
use egl_utils_cpp.BinarySerializer.Bytes.{Endian}
use egl_utils_cpp.BinarySerializer.Wire.{
  Field, scalar, raw, IsField, AreFields, wire, wire_all, wire-raw, field_size, total_size,
  all-accepted, all_true, length-wire, unordered-wire,
}
use egl_utils_cpp.BinarySerializer.Write.{write_all}
use egl_utils_cpp.BinarySerializer.Sequence.{write_all-Wrote}

-- What a client asks for: a scalar of some size, or a number of raw bytes.
pub data Shape : Type 0 where
  scalar_of : ℕ → Shape
  raw_of : ℕ → Shape

pub shape : Field → Shape
shape (scalar size value) = scalar_of size
shape (raw bytes) = raw_of (length bytes)

pub shapes : List Field → List Shape
unfolding shape
shapes [] = []
shapes (f ∷ fs) = shape f ∷ shapes fs

as_scalar : ℕ → Option ℕ → Option Field
as_scalar size none = none
as_scalar size (some value) = some (scalar size value)

as_raw : Option (List ℕ) → Option Field
as_raw none = none
as_raw (some bytes) = some (raw bytes)

pub read_field : Endian → BinaryDeserializer → Shape → Option Field × BinaryDeserializer
unfolding as_scalar as_raw
read_field native d (scalar_of size) =
    let (value, d') = read native d size in (as_scalar size value, d')
read_field native d (raw_of n) = let (bytes, d') = read_bytes d n in (as_raw bytes, d')

prepend : Field → Option (List Field) → Option (List Field)
prepend f none = none
prepend f (some fs) = some (f ∷ fs)

-- The first read that fails ends the sequence.
read_rest :
    Option Field
    → (BinaryDeserializer → Option (List Field) × BinaryDeserializer)
    → BinaryDeserializer
    → Option (List Field) × BinaryDeserializer
unfolding prepend
read_rest none rest d = (none, d)
read_rest (some f) rest d = let (fs, d') = rest d in (prepend f fs, d')

pub read_all : Endian → BinaryDeserializer → List Shape → Option (List Field) × BinaryDeserializer
unfolding read_rest
read_all native d [] = (some [], d)
read_all native d (s ∷ ss) =
    let (f, d') = read_field native d s in read_rest f (λ e. read_all native e ss) d'

-- At a cursor where a field stands on the wire, that field is read, whichever the host.
read_field-wire :
    (native : Endian) (pre rest : List ℕ) (f : Field) {d : BinaryDeserializer}
    → IsField f
    → d.input ≡ pre ++ (wire d.wire_order f ++ rest)
    → d.cursor ≡ length pre
    → length d.input ≤ max_size
    → read_field native d (shape f) ≡ (some f, record d { cursor = d.cursor + field_size f })
unfolding read_field read read_bytes shape
read_field-wire native pre rest (scalar size value) {d} ok e c small =
    let l = length-wire d.wire_order (scalar size value) in
    let wired = wire d.wire_order (scalar size value) in
    let total : length d.input ≡ length pre + (size + length rest) =
      omega (arith, ap length e, length-append pre (wired ++ rest), length-append wired rest) in
    let fits : ltb (unread_size d) size ≡ false = ground arith in
    let next : add_size d.cursor size ≡ d.cursor + size = omega arith in
    let ahead : take size (drop d.cursor d.input) ≡ wired =
      ap (take size) (ap (drop d.cursor) e ∙ drop-append_eq d.cursor pre (wired ++ rest) c)
      ∙ take-append_eq size wired rest (sym l) in
    rw (fits, next, ahead, unordered-wire d.wire_order native size value ok)
read_field-wire native pre rest (raw bytes) {d} ok e c small =
    let e' : d.input ≡ pre ++ (bytes ++ rest) = rw wire-raw at e in
    let total : length d.input ≡ length pre + (length bytes + length rest) =
      omega (arith, ap length e', length-append pre (bytes ++ rest), length-append bytes rest) in
    let fits : ltb (unread_size d) (length bytes) ≡ false = ground arith in
    let next : add_size d.cursor (length bytes) ≡ d.cursor + length bytes = omega arith in
    let ahead : take (length bytes) (drop d.cursor d.input) ≡ bytes =
      ap (take (length bytes))
        (ap (drop d.cursor) e' ∙ drop-append_eq d.cursor pre (bytes ++ rest) c)
      ∙ take-append_eq (length bytes) bytes rest refl in
    rw (fits, next, ahead)

read_all-wire :
    (native : Endian) (fs : List Field) (pre : List ℕ) {d : BinaryDeserializer}
    → AreFields fs
    → d.input ≡ pre ++ wire_all d.wire_order fs
    → d.cursor ≡ length pre
    → length d.input ≤ max_size
    → read_all native d (shapes fs) ≡ (some fs, record d { cursor = length d.input })
unfolding read_all shapes wire_all
read_all-wire native [] pre {d} ok e c small =
    let at_end : d.cursor ≡ length d.input = omega (arith, ap length e, length-append pre []) in
    rw (← at_end)
read_all-wire native (f ∷ fs) pre {d} ok e c small =
    let wired = wire d.wire_order f in
    let l = length-wire d.wire_order f in
    let one = read_field-wire native pre (wire_all d.wire_order fs) f ok.0 e c small in
    let rest =
      read_all-wire native fs (pre ++ wired) {d = record d { cursor = d.cursor + field_size f }}
        ok.1 (e ∙ sym (append_assoc pre wired (wire_all d.wire_order fs)))
        (omega (arith, length-append pre wired)) small in
    rw one (ap (λ r. (prepend f r.0, r.1)) rest)

-- Fields whose values are in range and that together fit into a buffer of at most `max_size` bytes
-- are all written, and what is written is read back, field by field and to its last byte, by a
-- deserializer of the same byte order on the same or another host.
pub round_trip :
    (writer reader order : Endian) (buffer : List ℕ) (fs : List Field)
    → AreFields fs
    → length buffer ≤ max_size
    → total_size fs ≤ length buffer
    → let t = (write_all writer (serializer buffer order) fs).1 in
      let (read_back, d) = read_all reader (deserializer (written t) order) (shapes fs) in
      (read_back ≡ some fs) × (exhausted d ≡ true) × (t.overflowed ≡ false)
round_trip writer reader order buffer fs ok small fits =
    let w = write_all-Wrote writer fs {s = serializer buffer order} (omega arith) in
    let t = (write_all writer (serializer buffer order) fs).1 in
    let (kept, all_written) = all-accepted (length buffer - 0) fs (omega arith) in
    let bytes : written t ≡ wire_all order fs = w.bytes ∙ ap (wire_all order) kept in
    let size = length-take t.pos t.buffer in
    let back =
      read_all-wire reader fs [] {d = deserializer (written t) order} ok bytes refl
        (omega (arith, w.size_kept)) in
    (
      ap (λ r. r.0) back,
      rw back (ground arith),
      w.latched ∙ ap not (ap all_true w.answered ∙ all_written),
    )
