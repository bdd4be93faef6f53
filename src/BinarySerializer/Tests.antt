-- ===== src/BinarySerializer/Tests.antt =====
-- Runs of the serializer on a host of one byte order and the deserializer on one of the other.
use egl_utils_cpp.Prelude.{ℕ, ◌≡◌, refl, true, false, some, List, [], ◌∷◌, arith}
use egl_utils_cpp.BinarySerializer.{
  serializer, written, deserializer, exhausted, write, write_raw, write_bytes, copy_at,
}
use egl_utils_cpp.BinarySerializer.Bytes.{little, big, bit_cast_to, little_bytes, reverse_bytes}
use egl_utils_cpp.BinarySerializer.Wire.{Field, scalar, raw}
use egl_utils_cpp.BinarySerializer.Write.{write_field, write_all}
use egl_utils_cpp.BinarySerializer.Sequence.{Wrote, write_all-Wrote}
use egl_utils_cpp.BinarySerializer.Read.{shapes, read_all, round_trip}

abbrev fields : List Field
fields = scalar 4 0xDEADBEEF ∷ raw (1 ∷ 2 ∷ []) ∷ scalar 2 0x0102 ∷ []

abbrev room_for_nine : List ℕ
room_for_nine = 0 ∷ 0 ∷ 0 ∷ 0 ∷ 0 ∷ 0 ∷ 0 ∷ 0 ∷ 0 ∷ []

abbrev room_for_five : List ℕ
room_for_five = 9 ∷ 9 ∷ 9 ∷ 9 ∷ 9 ∷ []

big_wire :
    written (write_all little (serializer room_for_nine big) fields).1
    ≡ 0xDE ∷ 0xAD ∷ 0xBE ∷ 0xEF ∷ 1 ∷ 2 ∷ 1 ∷ 2 ∷ []
unfolding write_all write_field write write_raw write_bytes copy_at bit_cast_to little_bytes
    reverse_bytes
big_wire = refl

round_trip_example :
    let t = (write_all little (serializer room_for_nine big) fields).1 in
    let (read_back, d) = read_all big (deserializer (written t) big) (shapes fields) in
    (read_back ≡ some fields) × (exhausted d ≡ true) × (t.overflowed ≡ false)
round_trip_example =
    round_trip little big big room_for_nine fields (omega arith) (omega arith) (omega arith)

write_all-Wrote_example :
    let (answers, t) = write_all little (serializer room_for_five big) fields in
    Wrote (serializer room_for_five big) fields answers t
write_all-Wrote_example = write_all-Wrote little fields (omega arith)
