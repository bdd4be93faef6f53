-- ===== src/FlatSet.antt =====
-- src/main/cpp/it/d4np/util/flat_set.hpp: `FlatSet<T, Compare>`, a set in one sorted vector. A member
-- that changes the set returns the new set behind its result; an iterator is the number of the
-- elements before it.
pub mod Laws
mod Tests
use egl_utils_cpp.Prelude.{
  ℕ, Bool, true, false, List, [], ◌∷◌, length, get_elem?, ◌==◌, not, if◌then◌else◌,
}
use egl_utils_cpp.SortedVector.{lower_bound, upper_bound, matches, insert_at, erase_at, unique}

-- The vector `data_`.
abbrev pub FlatSet {ℓ} : Type ℓ → Type ℓ
FlatSet T = List T

-- An element is its own key.
abbrev pub itself {ℓ} : {T : Type ℓ} → T → T
itself x = x

-- `comp` is the comparison object `comp_`.
module _ {ℓ} {T : Type ℓ} (comp : T → T → Bool) where
  -- The iterators `lower_bound` and `upper_bound`.
  abbrev pub lower : FlatSet T → T → ℕ
  lower m value = lower_bound itself comp value m

  abbrev pub upper : FlatSet T → T → ℕ
  upper m value = upper_bound itself comp value m

  pub find : FlatSet T → T → ℕ
  find m value =
      let pos = lower m value in
      if matches itself comp value (get_elem? m pos) then pos else length m

  pub contains : FlatSet T → T → Bool
  contains m value = not (find m value == length m)

  pub count : FlatSet T → T → ℕ
  unfolding contains
  count m value = if contains m value then 1 else 0

  pub insert_impl : FlatSet T → T → (ℕ × Bool) × FlatSet T
  insert_impl m value =
      let pos = lower m value in
      if matches itself comp value (get_elem? m pos)
      then ((pos, false), m)
      else ((pos, true), insert_at m pos value)

  -- `erase(const_iterator)`: the result is the position behind the element, which is its own.
  pub erase_position : FlatSet T → ℕ → ℕ × FlatSet T
  erase_position m pos = (pos, erase_at m pos)

  pub erase : FlatSet T → T → ℕ × FlatSet T
  unfolding find erase_position
  erase m value =
      let pos = find m value in if pos == length m then (0, m) else (1, (erase_position m pos).1)

  pub clear : FlatSet T → FlatSet T
  clear m = []

  -- The constructors from elements. `sort` is `std::sort` with the comparison, which leaves equivalent
  -- elements in an order of its own.
  pub sort_unique : (FlatSet T → FlatSet T) → FlatSet T → FlatSet T
  sort_unique sort elements = unique itself comp (sort elements)
