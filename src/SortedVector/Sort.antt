-- ===== src/SortedVector/Sort.antt =====
-- The stable sort orders the elements and keeps them all.
use egl_utils_cpp.Prelude.{refl, Bool, List, [], ◌∷◌, ◌++◌, append-nil, Bool-cases, inl, inr}
use mathlib.Core.Path.{subst}
use mathlib.Core.List.{Permᴰ}
use egl_utils_cpp.SortedVector.{stable_insert, stable_sort}
use egl_utils_cpp.SortedVector.Order.{IsOrder}
use egl_utils_cpp.SortedVector.Build.{IsOrdered, IsOrdered-stable_insert}

module _ {ℓ} {A : Type ℓ} where
  same : (xs : List A) → Permᴰ xs xs
  same [] = Permᴰ.nil
  same (x ∷ xs) = Permᴰ.cons refl (same xs)

  behind : (zs : List A) {xs ys : List A} → Permᴰ xs ys → Permᴰ (zs ++ xs) (zs ++ ys)
  behind [] p = p
  behind (z ∷ zs) p = Permᴰ.cons refl (behind zs p)

  to_front : (xs : List A) (y : A) (ys : List A) → Permᴰ (xs ++ (y ∷ ys)) (y ∷ (xs ++ ys))
  to_front [] y ys = same (y ∷ ys)
  to_front (x ∷ xs) y ys = Permᴰ.trans (Permᴰ.cons refl (to_front xs y ys)) (Permᴰ.swap refl refl)

module _ {ℓ ℓ'} {A : Type ℓ} {K : Type ℓ'} (key_of : A → K) (comp : K → K → Bool) where
  stable_insert-Perm : (x : A) (xs : List A) → Permᴰ (stable_insert key_of comp x xs) (x ∷ xs)
  unfolding stable_insert
  stable_insert-Perm x [] = same (x ∷ [])
  stable_insert-Perm x (y ∷ ys) = elim (Bool-cases (comp (key_of x) (key_of y))) [
    | inl t ↦ rw t (same (x ∷ y ∷ ys))
    | inr f ↦ rw f (Permᴰ.trans (Permᴰ.cons refl (stable_insert-Perm x ys)) (Permᴰ.swap refl refl))
  ]

  stable_sort-Perm_onto :
      (sorted xs : List A) → Permᴰ (stable_sort key_of comp sorted xs) (xs ++ sorted)
  unfolding stable_sort
  stable_sort-Perm_onto sorted [] = same sorted
  stable_sort-Perm_onto sorted (x ∷ xs) =
      Permᴰ.trans (stable_sort-Perm_onto (stable_insert key_of comp x sorted) xs)
        (Permᴰ.trans (behind xs (stable_insert-Perm x sorted)) (to_front xs x sorted))

  pub stable_sort-Perm : (xs : List A) → Permᴰ (stable_sort key_of comp [] xs) xs
  stable_sort-Perm xs =
      subst (λ ys. Permᴰ (stable_sort key_of comp [] xs) ys) (append-nil xs)
        (stable_sort-Perm_onto [] xs)

  pub stable_sort-IsOrdered :
      (o : IsOrder comp) (sorted xs : List A)
      → IsOrdered key_of comp sorted
      → IsOrdered key_of comp (stable_sort key_of comp sorted xs)
  unfolding stable_sort
  stable_sort-IsOrdered o sorted [] v = v
  stable_sort-IsOrdered o sorted (x ∷ xs) v =
      stable_sort-IsOrdered o (stable_insert key_of comp x sorted) xs
        (IsOrdered-stable_insert key_of comp o x sorted v)
