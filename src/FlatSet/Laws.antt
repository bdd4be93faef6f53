-- ===== src/FlatSet/Laws.antt =====
-- Membership after insertion, removal and construction.
use egl_utils_cpp.Prelude.{
  ℕ, ◌≡◌, refl, sym, ◌∙◌, ap, Bool, true, false, not, length, get_elem?, ◌==◌, if◌then◌else◌,
  Bool-cases, inl, inr, arith,
}
use mathlib.Core.List.{Permᴰ}
use egl_utils_cpp.SortedVector.{matches, equivalent, insert_at, erase_at, unique}
use egl_utils_cpp.SortedVector.Order.{IsOrder}
use egl_utils_cpp.SortedVector.Lookup.{IsSorted, matches-in_range}
use egl_utils_cpp.SortedVector.Change.{
  inserted, inserted-eq, erased, erased-eq, IsSorted-inserted, IsSorted-erased,
}
use egl_utils_cpp.SortedVector.Build.{IsOrdered}
use egl_utils_cpp.SortedVector.Members.{
  has, found-has, has-inserted, has-erased, has-unique, has-Perm, unique-IsSorted,
}
use egl_utils_cpp.FlatSet.{
  FlatSet, itself, lower, find, contains, count, insert_impl, erase, erase_position, sort_unique,
}

module _ {ℓ} {T : Type ℓ} (comp : T → T → Bool) where
  -- Whether the search ends at an equivalent element.
  abbrev hit : FlatSet T → T → Bool
  hit m value = matches itself comp value (get_elem? m (lower comp m value))

  not_end :
      (value : T) (m : FlatSet T) → hit m value ≡ true → (lower comp m value == length m) ≡ false
  not_end value m h =
      let r = matches-in_range itself comp value m (lower comp m value) h in ground arith

  same_size : (n : ℕ) → (n == n) ≡ true
  same_size n = ground arith

  contains-by-hit : (m : FlatSet T) (value : T) → contains comp m value ≡ hit m value
  unfolding contains find
  contains-by-hit m value = elim (Bool-cases (hit m value)) [
    | inl t ↦ rw (t, not_end value m t) refl
    | inr f ↦ rw (f, same_size (length m)) refl
  ]

  insert-inserted :
      (m : FlatSet T) (value : T) → (insert_impl comp m value).1 ≡ inserted itself comp value m
  unfolding insert_impl
  insert-inserted m value =
      let split : (insert_impl comp m value).1
          ≡ (if hit m value then m else insert_at m (lower comp m value) value) =
        elim (Bool-cases (hit m value)) [ inl t ↦ rw t refl | inr f ↦ rw f refl ] in
      split ∙ inserted-eq itself comp value m

  insert-new :
      (m : FlatSet T) (value : T) → (insert_impl comp m value).0.1 ≡ not (contains comp m value)
  unfolding insert_impl
  insert-new m value =
      elim (Bool-cases (hit m value)) [ inl t ↦ rw t refl | inr f ↦ rw f refl ]
      ∙ sym (ap not (contains-by-hit m value))

  erase-erased : (m : FlatSet T) (value : T) → (erase comp m value).1 ≡ erased itself comp value m
  unfolding erase erase_position find
  erase-erased m value =
      let split : (erase comp m value).1
          ≡ (if hit m value then erase_at m (lower comp m value) else m) =
        elim (Bool-cases (hit m value)) [
          | inl t ↦ rw (t, not_end value m t) refl
          | inr f ↦ rw (f, same_size (length m)) refl
        ] in
      split ∙ erased-eq itself comp value m

  erase-count : (m : FlatSet T) (value : T) → (erase comp m value).0 ≡ count comp m value
  unfolding erase count contains find
  erase-count m value = elim (Bool-cases (hit m value)) [
    | inl t ↦ rw (t, not_end value m t) refl
    | inr f ↦ rw (f, same_size (length m)) refl
  ]

module _ {ℓ} {T : Type ℓ} {comp : T → T → Bool} (o : IsOrder comp) where
  contains-has :
      (m : FlatSet T) (value : T)
      → IsSorted itself comp m
      → contains comp m value ≡ has itself comp value m
  contains-has m value v = contains-by-hit comp m value ∙ found-has itself comp o value m v

  -- Insertion into a sorted set leaves it sorted, adds the value and no other, and reports whether it
  -- was new.
  pub contains-insert_impl :
      (m : FlatSet T) (value : T)
      → IsSorted itself comp m
      → let ((pos, is_new), m') = insert_impl comp m value in
        IsSorted itself comp m'
        × ((other : T)
            → contains comp m' other
              ≡ (if equivalent comp other value then true else contains comp m other))
        × (is_new ≡ not (contains comp m value))
  contains-insert_impl m value v =
      let sorted = IsSorted-inserted itself comp o value m v in
      rw (insert-inserted comp m value) (
        sorted,
        λ other.
            contains-has (inserted itself comp value m) other sorted
            ∙ has-inserted itself comp o other value m v
            ∙ ap (λ b. if equivalent comp other value then true else b)
                (sym (contains-has m other v)),
        insert-new comp m value,
      )

  -- Removal from a sorted set leaves it sorted, takes away the value and no other, and returns the
  -- number of elements that are equivalent to the value.
  pub contains-erase :
      (m : FlatSet T) (value : T)
      → IsSorted itself comp m
      → let (removed, m') = erase comp m value in
        IsSorted itself comp m'
        × ((other : T)
            → contains comp m' other
              ≡ (if equivalent comp other value then false else contains comp m other))
        × (removed ≡ count comp m value)
  contains-erase m value v =
      let sorted = IsSorted-erased itself comp o value m v in
      rw (erase-erased comp m value) (
        sorted,
        λ other.
            contains-has (erased itself comp value m) other sorted
            ∙ has-erased itself comp o other value m v
            ∙ ap (λ b. if equivalent comp other value then false else b)
                (sym (contains-has m other v)),
        erase-count comp m value,
      )

  -- Where `std::sort` puts the elements that it is given in order, the set built from a range is
  -- sorted without duplicates, and contains a value exactly if the range has an equivalent one.
  pub contains-sort_unique :
      (sort : FlatSet T → FlatSet T)
      → ((xs : FlatSet T) → IsOrdered itself comp (sort xs))
      → ((xs : FlatSet T) → Permᴰ (sort xs) xs)
      → (elements : FlatSet T)
      → IsSorted itself comp (sort_unique comp sort elements)
        × ((value : T)
            → contains comp (sort_unique comp sort elements) value ≡ has itself comp value elements)
  unfolding sort_unique
  contains-sort_unique sort ordered same elements =
      let sorted = unique-IsSorted itself comp o (sort elements) (ordered elements) in
      (
        sorted,
        λ value.
            contains-has (unique itself comp (sort elements)) value sorted
            ∙ has-unique itself comp o value (sort elements)
            ∙ has-Perm itself comp o value (same elements),
      )
