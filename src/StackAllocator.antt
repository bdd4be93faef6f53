-- ===== src/StackAllocator.antt =====
-- src/main/cpp/it/d4np/util/stack_allocator.hpp: `StackAllocator`, a bump allocator over a buffer in the
-- object. A pointer is an address.
pub mod Fit
pub mod World
pub mod Safety
mod Tests
use egl_utils_cpp.Prelude.{ℕ, ◌+◌, ◌-◌, ◌*◌, ◌/◌, ◌%◌, ◌^◌, Option, none, some, leb, if◌then◌else◌}

-- `base` is the address of `buffer_`, `capacity` the template's `Size`.
pub record StackAllocator : Type 0 where
  pub base : ℕ
  pub capacity : ℕ
  pub offset : ℕ

abbrev pub create : ℕ → ℕ → StackAllocator
create base capacity = record { base = base; capacity = capacity; offset = 0 }

-- The lowest multiple of `alignment` that is not below the address.
abbrev pub align_up : ℕ → ℕ → ℕ
align_up alignment address = (address + (alignment - 1)) / alignment * alignment

-- `std::align`: the aligned address, if `bytes` bytes fit behind it in the space.
abbrev pub align : ℕ → ℕ → ℕ → ℕ → Option ℕ
align alignment bytes cursor space =
    let aligned = align_up alignment cursor in
    if leb (aligned - cursor + bytes) space then some aligned else none

-- The address and the new allocator, or `std::bad_alloc`, which leaves the allocator as it was.
unfoldable pub allocate : StackAllocator → ℕ → ℕ → Option (ℕ × StackAllocator)
allocate s bytes alignment =
    elim (align alignment bytes (s.base + s.offset) (s.capacity - s.offset)) [
      | none ↦ none
      | some aligned ↦ some (aligned, record s { offset = aligned - s.base + bytes })
    ]

-- For `count` objects of a type with the size and the alignment; the product wraps.
unfoldable pub allocate_uninitialized : StackAllocator → ℕ → ℕ → ℕ → Option (ℕ × StackAllocator)
unfolding allocate
allocate_uninitialized s size_of align_of count = allocate s (count * size_of % 2 ^ 64) align_of

abbrev pub reset : StackAllocator → StackAllocator
reset s = record s { offset = 0 }

abbrev pub mark : StackAllocator → ℕ
mark s = s.offset

abbrev pub rewind : StackAllocator → ℕ → StackAllocator
rewind s marker = record s { offset = marker }

abbrev pub used : StackAllocator → ℕ
used s = s.offset

abbrev pub remaining : StackAllocator → ℕ
remaining s = s.capacity - s.offset
