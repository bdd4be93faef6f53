-- ===== src/SortedVector.antt =====
-- The standard algorithms that flat_map.hpp and flat_set.hpp of src/main/cpp/it/d4np/util call on
-- their sorted vectors: `std::lower_bound`, `std::upper_bound`, `std::stable_sort`, `std::unique`, and
-- `insert` and `erase` of the vector. An iterator is the number of the elements before it.
pub mod Order
pub mod Lookup
pub mod Change
pub mod Build
pub mod Members
pub mod Sort
use egl_utils_cpp.Prelude.{
  ℕ, zero, suc, Bool, true, false, not, ◌&&◌, Option, none, some, List, [], ◌∷◌, ◌++◌, take, drop,
  get_elem?, if◌then◌else◌,
}

module _ {ℓ} {A : Type ℓ} where
  -- `data_.insert(pos, x)` and `data_.erase(pos)`.
  pub insert_at : List A → ℕ → A → List A
  insert_at xs pos x = take pos xs ++ (x ∷ drop pos xs)

  pub erase_at : List A → ℕ → List A
  erase_at xs pos = take pos xs ++ drop (suc pos) xs

-- Neither key is less than the other.
abbrev pub equivalent {ℓ} : {K : Type ℓ} → (K → K → Bool) → K → K → Bool
equivalent comp a b = not (comp a b) && not (comp b a)

-- `key_of` is the key of an element, and `comp` the comparison of keys.
module _ {ℓ ℓ'} {A : Type ℓ} {K : Type ℓ'} (key_of : A → K) (comp : K → K → Bool) where
  -- `std::lower_bound(begin, end, key, element_less)`: the first element that is not less than `key`.
  pub lower_bound : K → List A → ℕ
  lower_bound key [] = 0
  lower_bound key (x ∷ xs) =
      let rest = lower_bound key xs in if comp (key_of x) key then suc rest else 0

  -- `std::upper_bound(begin, end, key, key_less)`: the first element that `key` is less than.
  pub upper_bound : K → List A → ℕ
  upper_bound key [] = 0
  upper_bound key (x ∷ xs) =
      let rest = upper_bound key xs in if comp key (key_of x) then 0 else suc rest

  -- `pos != end && !comp(key, *pos)`.
  pub matches : K → Option A → Bool
  matches key none = false
  matches key (some x) = not (comp key (key_of x))

  -- `std::stable_sort`: an element goes behind those that came first and are not greater.
  pub stable_insert : A → List A → List A
  stable_insert x [] = x ∷ []
  stable_insert x (y ∷ ys) =
      let rest = stable_insert x ys in if comp (key_of x) (key_of y) then x ∷ y ∷ ys else y ∷ rest

  pub stable_sort : List A → List A → List A
  stable_sort sorted [] = sorted
  stable_sort sorted (x ∷ xs) = stable_sort (stable_insert x sorted) xs

  -- `std::unique` with the erasure behind it: `kept` is the last element kept.
  pub unique_after : A → List A → List A
  unique_after kept [] = []
  unique_after kept (x ∷ xs) =
      let same = unique_after kept xs in
      let other = unique_after x xs in
      if equivalent comp (key_of kept) (key_of x) then same else x ∷ other

  pub unique : List A → List A
  unique [] = []
  unique (x ∷ xs) = x ∷ unique_after x xs
