-- ===== src/BinarySerializer.antt =====
-- src/main/cpp/it/d4np/util/binary_serializer.hpp: `BinarySerializer` and `BinaryDeserializer` over
-- a buffer of the caller. A scalar is its bit pattern, a number below `256 ^ sizeof(T)`; `native` is
-- the byte order of the host.
pub mod Bytes
pub mod Wire
pub mod Write
pub mod Sequence
pub mod Read
mod Tests
use egl_utils_cpp.Prelude.{
  ℕ, zero, suc, ◌+◌, Bool, true, false, ◌&&◌, Option, none, some, List, [], ◌∷◌, ◌++◌, length, take,
  drop, ltb, ◌==◌, if◌then◌else◌, add_size, sub_size,
}
use Bytes.{Endian, little, big, same_order, reverse_bytes, bit_cast_to, bit_cast_from}

pub record BinarySerializer : Type 0 where
  pub buffer : List ℕ
  pub pos : ℕ
  pub order : Endian
  pub overflowed : Bool

abbrev pub serializer : List ℕ → Endian → BinarySerializer
serializer buffer order = record { buffer = buffer; pos = 0; order = order; overflowed = false }

-- The bytes written so far.
abbrev pub written : BinarySerializer → List ℕ
written s = take s.pos s.buffer

abbrev pub remaining : BinarySerializer → ℕ
remaining s = sub_size (length s.buffer) s.pos

-- `std::ranges::copy(src, buffer.subspan(pos).begin())` for a source that fits.
pub copy_at : List ℕ → ℕ → List ℕ → List ℕ
copy_at buffer pos src = take pos buffer ++ (src ++ drop (pos + length src) buffer)

pub write_bytes : BinarySerializer → List ℕ → Bool × BinarySerializer
write_bytes s src =
    if ltb (remaining s) (length src)
    then (false, record s { overflowed = true })
    else (true, record s { buffer = copy_at s.buffer s.pos src; pos = add_size s.pos (length src) })

-- `N` is the length of the array.
pub write_raw : Endian → BinarySerializer → List ℕ → Bool × BinarySerializer
write_raw native s raw =
    if ltb (remaining s) (length raw)
    then (false, record s { overflowed = true })
    else (let ordered = if same_order s.order native then raw else reverse_bytes raw in
        (
          true,
          record s { buffer = copy_at s.buffer s.pos ordered; pos = add_size s.pos (length raw) },
        ))

-- `write<T>(value)` with `size` for `sizeof(T)`.
pub write : Endian → BinarySerializer → ℕ → ℕ → Bool × BinarySerializer
write native s size value = write_raw native s (bit_cast_to native size value)

pub record BinaryDeserializer : Type 0 where
  pub input : List ℕ
  pub cursor : ℕ
  pub wire_order : Endian

abbrev pub deserializer : List ℕ → Endian → BinaryDeserializer
deserializer buffer order = record { input = buffer; cursor = 0; wire_order = order }

abbrev pub unread_size : BinaryDeserializer → ℕ
unread_size d = sub_size (length d.input) d.cursor

abbrev pub exhausted : BinaryDeserializer → Bool
exhausted d = d.cursor == length d.input

-- `read<T>()` with `size` for `sizeof(T)`.
pub read : Endian → BinaryDeserializer → ℕ → Option ℕ × BinaryDeserializer
read native d size =
    if ltb (unread_size d) size
    then (none, d)
    else (let raw = take size (drop d.cursor d.input) in
        let ordered = if same_order d.wire_order native then raw else reverse_bytes raw in
        (some (bit_cast_from native ordered), record d { cursor = add_size d.cursor size }))

pub read_bytes : BinaryDeserializer → ℕ → Option (List ℕ) × BinaryDeserializer
read_bytes d n =
    if ltb (unread_size d) n
    then (none, d)
    else (some (take n (drop d.cursor d.input)), record d { cursor = add_size d.cursor n })
