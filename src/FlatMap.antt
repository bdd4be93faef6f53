-- ===== src/FlatMap.antt =====
-- src/main/cpp/it/d4np/util/flat_map.hpp: `FlatMap<Key, Value, Compare>`, a map in one sorted vector
-- of pairs. A member that changes the map returns the new map behind its result; an iterator is the
-- number of the entries before it.
pub mod Steps
pub mod Laws
mod Tests
use egl_utils_cpp.Prelude.{
  ℕ, Bool, true, false, Option, none, some, List, [], ◌∷◌, length, get_elem?, set, ◌==◌, not,
  if◌then◌else◌,
}
use egl_utils_cpp.SortedVector.{
  lower_bound, upper_bound, matches, insert_at, erase_at, stable_sort, unique,
}

-- The vector `data_`.
abbrev pub FlatMap {ℓ ℓ'} : Type ℓ → Type ℓ' → Type (ℓ ⊔ ℓ')
FlatMap Key Value = List (Key × Value)

abbrev pub key_of {ℓ ℓ'} : {Key : Type ℓ} {Value : Type ℓ'} → Key × Value → Key
key_of e = e.0

pub second {ℓ ℓ'} : {Key : Type ℓ} {Value : Type ℓ'} → Option (Key × Value) → Option Value
second none = none
second (some e) = some e.1

-- `comp` is the comparison object `comp_`.
module _ {ℓ ℓ'} {Key : Type ℓ} {Value : Type ℓ'} (comp : Key → Key → Bool) where
  -- The iterators `lower_bound` and `upper_bound`.
  abbrev pub lower : FlatMap Key Value → Key → ℕ
  lower m key = lower_bound key_of comp key m

  abbrev pub upper : FlatMap Key Value → Key → ℕ
  upper m key = upper_bound key_of comp key m

  -- `find` and `locate`.
  pub find : FlatMap Key Value → Key → ℕ
  find m key =
      let pos = lower m key in if matches key_of comp key (get_elem? m pos) then pos else length m

  pub contains : FlatMap Key Value → Key → Bool
  contains m key = not (find m key == length m)

  pub count : FlatMap Key Value → Key → ℕ
  unfolding contains
  count m key = if contains m key then 1 else 0

  -- `none` is the `std::out_of_range` that `at` throws.
  pub at : FlatMap Key Value → Key → Option Value
  unfolding find second
  at m key = let pos = find m key in if pos == length m then none else second (get_elem? m pos)

  pub insert_impl : FlatMap Key Value → (Key × Value) → (ℕ × Bool) × FlatMap Key Value
  insert_impl m kv =
      let pos = lower m (key_of kv) in
      if matches key_of comp (key_of kv) (get_elem? m pos)
      then ((pos, false), m)
      else ((pos, true), insert_at m pos kv)

  -- `operator[]`: the position of the entry to whose value the result refers.
  pub subscript : Value → FlatMap Key Value → Key → ℕ × FlatMap Key Value
  subscript default m key =
      let pos = lower m key in
      if matches key_of comp key (get_elem? m pos)
      then (pos, m)
      else (pos, insert_at m pos (key, default))

  -- `erase(const_iterator)`: the result is the position behind the entry, which is its own.
  pub erase_position : FlatMap Key Value → ℕ → ℕ × FlatMap Key Value
  erase_position m pos = (pos, erase_at m pos)

  pub erase : FlatMap Key Value → Key → ℕ × FlatMap Key Value
  unfolding find erase_position
  erase m key =
      let pos = find m key in if pos == length m then (0, m) else (1, (erase_position m pos).1)

  pub clear : FlatMap Key Value → FlatMap Key Value
  clear m = []

  pub insert_each : FlatMap Key Value → List (Key × Value) → FlatMap Key Value
  unfolding insert_impl
  insert_each m [] = m
  insert_each m (kv ∷ kvs) = insert_each (insert_impl m kv).1 kvs

  -- `is_constant_evaluated` is `std::is_constant_evaluated()`.
  pub build_from : Bool → List (Key × Value) → FlatMap Key Value
  unfolding insert_each
  build_from is_constant_evaluated entries =
      if is_constant_evaluated
      then insert_each [] entries
      else unique key_of comp (stable_sort key_of comp [] entries)
