-- ===== src/StackAllocator/Fit.antt =====
-- When `allocate` succeeds, and where.
use egl_utils_cpp.Prelude.{
  ℕ, ◌+◌, ◌-◌, ◌*◌, ◌/◌, ◌%◌, ◌^◌, ◌≤◌, ◌<◌, ◌≡◌, refl, sym, ap, ◌∙◌, lt_cases, none, some, leb,
  arith, Bool-cases, inl, inr, leb→le, le→leb, Bool, true, false,
}
use native.Mathlib.Nat.{mod-lt, mod-eq_of_lt, div-add-mod', mul-mod_left, mul-add-mod_self_right}
use egl_utils_cpp.StackAllocator.{StackAllocator, align_up, allocate, allocate_uninitialized}

-- The bounds of the rounding, for every divisor that is not zero.
pub record IsUp (alignment address aligned : ℕ) : Type 0 where
  pub multiple : aligned % alignment ≡ 0
  pub above : address ≤ aligned
  pub near : aligned < address + alignment

pub align_up-IsUp :
    (alignment address : ℕ) → 0 < alignment → IsUp alignment address (align_up alignment address)
align_up-IsUp alignment address h =
    let shown = div-add-mod' (address + (alignment - 1)) alignment in
    let small = mod-lt (address + (alignment - 1)) h in
    record {
      multiple = mul-mod_left ((address + (alignment - 1)) / alignment) alignment;
      above = omega arith;
      near = omega arith;
    }

multiple_le : (n x y : ℕ) → x % n ≡ 0 → y % n ≡ 0 → x < y + n → x ≤ y
multiple_le n x y ex ey h = elim (lt_cases y x) [
  | inr le ↦ le
  | inl lt ↦
      let d = x - y in
      let split : y / n * n + d ≡ x = omega (arith, div-add-mod' y n) in
      let e : d % n ≡ x % n = sym (mul-add-mod_self_right (y / n) n d) ∙ ap (λ z. z % n) split in
      let same = mod-eq_of_lt {n = d} {m = n} (omega arith) in absurd (omega arith)
]

-- Every place in the free part of the buffer that is aligned and has room.
pub record IsRoom (s : StackAllocator) (bytes alignment place : ℕ) : Type 0 where
  pub aligned : place % alignment ≡ 0
  pub free : s.base + s.offset ≤ place
  pub ends : place + bytes ≤ s.base + s.capacity

abbrev pub taken : StackAllocator → ℕ → ℕ → StackAllocator
taken s place bytes = record s { offset = place - s.base + bytes }

abbrev up : StackAllocator → ℕ → ℕ
up s alignment = align_up alignment (s.base + s.offset)

abbrev has_room : StackAllocator → ℕ → ℕ → Bool
has_room s bytes alignment =
    leb (up s alignment - (s.base + s.offset) + bytes) (s.capacity - s.offset)

allocate_found :
    (s : StackAllocator) (bytes alignment : ℕ)
    → has_room s bytes alignment ≡ true
    → allocate s bytes alignment ≡ some (up s alignment, taken s (up s alignment) bytes)
unfolding allocate
allocate_found s bytes alignment h = rw (allocate, h) refl

allocate_full :
    (s : StackAllocator) (bytes alignment : ℕ)
    → has_room s bytes alignment ≡ false
    → allocate s bytes alignment ≡ none
unfolding allocate
allocate_full s bytes alignment h = rw (allocate, h) refl

up-IsRoom :
    (s : StackAllocator) (bytes alignment : ℕ)
    → s.offset ≤ s.capacity
    → 0 < alignment
    → has_room s bytes alignment ≡ true
    → IsRoom s bytes alignment (up s alignment)
up-IsRoom s bytes alignment ok pos e =
    let rounded = align_up-IsUp alignment (s.base + s.offset) pos in
    let above = rounded.above in
    let fits = leb→le (up s alignment - (s.base + s.offset) + bytes) (s.capacity - s.offset) e in
    record { aligned = rounded.multiple; free = above; ends = omega arith }

pub allocate-IsRoom :
    (s : StackAllocator) (bytes alignment : ℕ) {place : ℕ} {s' : StackAllocator}
    → s.offset ≤ s.capacity
    → 0 < alignment
    → allocate s bytes alignment ≡ some (place, s')
    → IsRoom s bytes alignment place × (s' ≡ taken s place bytes)
allocate-IsRoom s bytes alignment {place} {s'} ok pos h =
    elim (Bool-cases (has_room s bytes alignment)) [
      | inr e ↦
          let gone = sym (allocate_full s bytes alignment e) ∙ h in
          let f : true ≡ false = ap (λ o. elim o [ none ↦ true | some p ↦ false ]) gone in
          absurd (cc)
      | inl e ↦
          let found = sym (allocate_found s bytes alignment e) ∙ h in
          let at : up s alignment ≡ place = ap (λ o. elim o [ none ↦ 0 | some p ↦ p.0 ]) found in
          let after : taken s (up s alignment) bytes ≡ s' =
            ap (λ o. elim o [ none ↦ s | some p ↦ p.1 ]) found in
          rw (← after, ← at) (up-IsRoom s bytes alignment ok pos e, refl)
    ]

-- If some aligned place in the free part of the buffer has room for the bytes, `allocate` returns the
-- lowest such place, and takes the buffer up to the end of the bytes; it throws only if there is
-- none.
pub allocate_lowest :
    (s : StackAllocator) (bytes alignment other : ℕ)
    → s.offset ≤ s.capacity
    → 0 < alignment
    → IsRoom s bytes alignment other
    → (place : ℕ) × (allocate s bytes alignment ≡ some (place, taken s place bytes))
      × IsRoom s bytes alignment place
      × (place ≤ other)
allocate_lowest s bytes alignment other ok pos room =
    let rounded = align_up-IsUp alignment (s.base + s.offset) pos in
    let above = rounded.above in
    let near = rounded.near in
    let free = room.free in
    let ends = room.ends in
    let lowest =
      multiple_le alignment (up s alignment) other rounded.multiple room.aligned (omega arith) in
    let fits =
      le→leb (up s alignment - (s.base + s.offset) + bytes) (s.capacity - s.offset) (omega arith) in
    (
      up s alignment,
      allocate_found s bytes alignment fits,
      up-IsRoom s bytes alignment ok pos fits,
      lowest,
    )

-- Where the product of the count and the size of the type does not wrap, the storage that
-- `allocate_uninitialized` returns has room for all objects, and is aligned for them.
pub allocate_uninitialized-IsRoom :
    (s : StackAllocator) (size_of align_of count : ℕ) {place : ℕ} {s' : StackAllocator}
    → s.offset ≤ s.capacity
    → 0 < align_of
    → count * size_of < 2 ^ 64
    → allocate_uninitialized s size_of align_of count ≡ some (place, s')
    → IsRoom s (count * size_of) align_of place × (s' ≡ taken s place (count * size_of))
unfolding allocate_uninitialized
allocate_uninitialized-IsRoom s size_of align_of count ok pos small h =
    let whole : count * size_of % 2 ^ 64 ≡ count * size_of = mod-eq_of_lt small in
    allocate-IsRoom s (count * size_of) align_of ok pos
      (ap (λ n. allocate s n align_of) (sym whole) ∙ h)
