-- ===== src/LockFreeQueue/Capacity.antt =====
-- lock_free_queue.hpp: the capacity that the constructor gives.
use native.Mathlib.Nat.{pow-succ'}
use egl_utils_cpp.Prelude.{
  ℕ, zero, suc, ◌+◌, ◌*◌, ◌^◌, ◌≤◌, ◌<◌, ◌≡◌, refl, sym, ◌∙◌, ap, subst, ◌⊎◌, inl, inr, true, false,
  Bool-cases, Option, none, some, ◌==◌, ◌||◌, leb, leb→le, ltb, if◌then◌else◌, arith,
}
use egl_utils_cpp.LockFreeQueue.{
  LockFreeQueue, bit_ceil_from, bit_ceil, rounded_capacity, fresh, create, capacity,
}

-- The least power of two that is not less than `n`.
bit_ceil_from_lem :
    (fuel j n : ℕ)
    → n ≤ 2 ^ (j + fuel)
    → 2 ^ j < 2 * n
    → (m : ℕ) × (bit_ceil_from fuel (2 ^ j) n ≡ 2 ^ m)
      × (n ≤ 2 ^ m)
      × (2 ^ m < 2 * n)
      × (m ≤ j + fuel)
unfolding bit_ceil_from
bit_ceil_from_lem zero j n top low =
    let e : j + 0 ≡ j = omega arith in (j, refl, subst (λ i. n ≤ 2 ^ i) e top, low, omega arith)
bit_ceil_from_lem (suc fuel) j n top low = elim (Bool-cases (leb n (2 ^ j))) [
  | inl e ↦ (
    j,
    ap (λ b. elim b [ true ↦ 2 ^ j | false ↦ bit_ceil_from fuel (2 * 2 ^ j) n ]) e,
    leb→le n (2 ^ j) e,
    low,
    omega arith,
  )
  | inr e ↦
      let more : 2 ^ j < n = ground arith in
      let double = pow-succ' 2 j in
      let shift : j + suc fuel ≡ suc j + fuel = omega arith in
      let (m, f, above, below, bound) =
        bit_ceil_from_lem fuel (suc j) n (subst (λ i. n ≤ 2 ^ i) shift top) (omega arith) in
      (
        m,
        ap (λ b. elim b [ true ↦ 2 ^ j | false ↦ bit_ceil_from fuel (2 * 2 ^ j) n ]) e
            ∙ ap (λ p. bit_ceil_from fuel p n) (sym double)
            ∙ f,
        above,
        below,
        omega arith,
      )
]

-- What the constructor makes of a capacity.
abbrev pub Creates : {A : Type 0} → ℕ → Option (LockFreeQueue A) → Type 0
Creates c none = (c ≡ 0) ⊎ (2 ^ 63 < c)
Creates c (some q) =
    (m : ℕ) × (q ≡ fresh (2 ^ m)) × (capacity q ≡ 2 ^ m) × (c ≤ 2 ^ m) × (2 ^ m < 2 * c)

bit_ceil_lem :
    (n : ℕ)
    → 0 < n
    → n ≤ 2 ^ 63
    → (m : ℕ) × (bit_ceil n ≡ 2 ^ m) × (n ≤ 2 ^ m) × (2 ^ m < 2 * n) × (m ≤ 63)
unfolding bit_ceil
bit_ceil_lem n positive small = bit_ceil_from_lem 63 0 n small (omega arith)

-- A new queue's mask and capacity.
capacity-fresh :
    (A : Type 0) (size : ℕ) → 0 < size → size < 2 ^ 64 → capacity (fresh {A = A} size) ≡ size
unfolding fresh
capacity-fresh A size positive small = omega arith

create-some :
    (A : Type 0) (c size : ℕ)
    → rounded_capacity c ≡ some size
    → create {A = A} c ≡ some (fresh size)
unfolding create
create-some A c size e = ap (λ o. elim o [ none ↦ none | some n ↦ some (fresh n) ]) e

create-none : (A : Type 0) (c : ℕ) → rounded_capacity c ≡ none → create {A = A} c ≡ none
unfolding create
create-none A c e = ap (λ o. elim o [ none ↦ none | some n ↦ some (fresh n) ]) e

refused_capacity : (c : ℕ) → c == 0 || ltb (2 ^ 63) c ≡ true → (c ≡ 0) ⊎ (2 ^ 63 < c)
refused_capacity c e = ground arith

taken_capacity : (c : ℕ) → c == 0 || ltb (2 ^ 63) c ≡ false → (0 < c) × (c ≤ 2 ^ 63)
taken_capacity c e = ground arith

-- The constructor throws exactly for a capacity of 0 and for one above 2^63; otherwise it makes a
-- new queue whose capacity is the least power of two that is not less than the one wanted.
pub create-Creates : (A : Type 0) (c : ℕ) → Creates {A = A} c (create c)
unfolding rounded_capacity
create-Creates A c = elim (Bool-cases (c == 0 || ltb (2 ^ 63) c)) [
  | inl e ↦
      subst (Creates {A = A} c)
        (sym (create-none A c (ap (λ b. if b then none else some (bit_ceil c)) e)))
        (refused_capacity c e)
  | inr e ↦
      let (positive, small) = taken_capacity c e in
      let (m, f, above, below, _) = bit_ceil_lem c positive small in
      let given =
        create-some A c (bit_ceil c) (ap (λ b. if b then none else some (bit_ceil c)) e) in
      subst (Creates {A = A} c) (sym (given ∙ ap (λ n. some (fresh n)) f))
        (m, refl, capacity-fresh A (2 ^ m) (omega arith) (omega arith), above, below)
]
