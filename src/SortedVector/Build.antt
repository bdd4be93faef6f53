-- ===== src/SortedVector/Build.antt =====
-- A stable sort with the removal of duplicates, against insertion one by one.
use egl_utils_cpp.Prelude.{
  ◌≡◌, refl, ◌∙◌, Bool, sym, Option, none, some, true, false, List, [], ◌∷◌, if◌then◌else◌,
  Bool-cases, inl, inr, ap,
}
use egl_utils_cpp.SortedVector.{stable_insert, stable_sort, unique_after, unique, equivalent}
use egl_utils_cpp.SortedVector.Order.{
  IsOrder, less, greater, equal, compared, less_at_least, at_least_less,
}
use egl_utils_cpp.SortedVector.Lookup.{lookup, IsSorted}
use egl_utils_cpp.SortedVector.Change.{inserted, or_else, IsSorted-inserted, lookup-inserted}

module _ {ℓ} {A : Type ℓ} where
  first : Option A → Option A → Option A
  first none y = y
  first (some x) y = some x

  first-none : (x : Option A) → first x none ≡ x
  unfolding first
  first-none none = refl
  first-none (some x) = refl

  first-or_else :
      (b : Bool) (y : A) (x z : Option A)
      → first (if b then or_else x y else x) z ≡ first x (if b then some y else z)
  unfolding first or_else
  first-or_else true y none z = refl
  first-or_else true y (some x) z = refl
  first-or_else false y x z = refl

module _ {ℓ ℓ'} {A : Type ℓ} {K : Type ℓ'} (key_of : A → K) (comp : K → K → Bool) where
  -- No key of the vector is less than `key`.
  abbrev pub AtLeast : K → List A → Type 0
  AtLeast key [] = Unit {0}
  AtLeast key (x ∷ xs) = (comp (key_of x) key ≡ false) × AtLeast key xs

  -- Sorted, with equivalent keys side by side.
  abbrev pub IsOrdered : List A → Type 0
  IsOrdered [] = Unit {0}
  IsOrdered (x ∷ xs) = AtLeast (key_of x) xs × IsOrdered xs

  -- Insertion of each element in turn.
  unfoldable pub inserted_all : List A → List A → List A
  inserted_all xs [] = xs
  inserted_all xs (y ∷ ys) = inserted_all (inserted key_of comp y xs) ys

  module _ (o : IsOrder comp) where
    AtLeast-less : {a b : K} (xs : List A) → comp a b ≡ true → AtLeast b xs → AtLeast a xs
    AtLeast-less [] l v = tt
    AtLeast-less (x ∷ xs) l (h, v) = (at_least_less o l h, AtLeast-less xs l v)

    AtLeast-stable_insert :
        (a : K) (x : A) (xs : List A)
        → comp (key_of x) a ≡ false
        → AtLeast a xs
        → AtLeast a (stable_insert key_of comp x xs)
    unfolding stable_insert
    AtLeast-stable_insert a x [] h v = (h, tt)
    AtLeast-stable_insert a x (y ∷ ys) h (g, v) = elim (Bool-cases (comp (key_of x) (key_of y))) [
      | inl l ↦ rw l (h, (g, v))
      | inr n ↦ rw n (g, AtLeast-stable_insert a x ys h v)
    ]

    pub IsOrdered-stable_insert :
        (x : A) (xs : List A) → IsOrdered xs → IsOrdered (stable_insert key_of comp x xs)
    unfolding stable_insert
    IsOrdered-stable_insert x [] v = (tt, tt)
    IsOrdered-stable_insert x (y ∷ ys) (b, v) = elim (compared o (key_of x) (key_of y)) [
      | less l n ↦ rw l ((n, AtLeast-less ys l b), (b, v))
      | greater n _ ↦ rw n (AtLeast-stable_insert _ x ys n b, IsOrdered-stable_insert x ys v)
      | equal n _ ↦ rw n (AtLeast-stable_insert _ x ys n b, IsOrdered-stable_insert x ys v)
    ]

    unique_after-stable_insert :
        (x y : A) (ys : List A)
        → comp (key_of x) (key_of y) ≡ false
        → AtLeast (key_of y) ys
        → IsOrdered ys
        → unique_after key_of comp y (stable_insert key_of comp x ys) ≡ (
            if comp (key_of y) (key_of x)
            then inserted key_of comp x (unique_after key_of comp y ys)
            else unique_after key_of comp y ys)
    unfolding stable_insert unique_after inserted
    unique_after-stable_insert x y [] n b v = elim (Bool-cases (comp (key_of y) (key_of x))) [
      | inl l ↦ rw l refl
      | inr m ↦ rw (m, n) refl
    ]
    unique_after-stable_insert x y (z ∷ zs) n (zy, b) (c, v) =
        elim (compared o (key_of x) (key_of z)) [
          | less l n' ↦ elim (Bool-cases (comp (key_of y) (key_of x))) [
            | inl yx ↦ rw (l, n', yx, o.transitive yx l, l, n') refl
            | inr nyx ↦ rw (l, nyx, n) refl
          ]
          | greater n' l ↦ elim (Bool-cases (comp (key_of y) (key_of z))) [
            | inl yz ↦
                let yx = o.transitive yz l in
                rw (n', yx, yz, l)
                  (ap (λ k. z ∷ k) (unique_after-stable_insert x z zs n' c v ∙ rw l refl))
            | inr nyz ↦ rw (n', nyz, zy) (unique_after-stable_insert x y zs n b v)
          ]
          | equal n' m ↦ elim (Bool-cases (comp (key_of y) (key_of z))) [
            | inl yz ↦
                let yx = less_at_least o yz n' in
                rw (n', yx, yz, m, n')
                  (ap (λ k. z ∷ k) (unique_after-stable_insert x z zs n' c v ∙ rw m refl))
            | inr nyz ↦ rw (n', nyz, zy) (unique_after-stable_insert x y zs n b v)
          ]
        ]

    unique-stable_insert :
        (x : A) (ys : List A)
        → IsOrdered ys
        → unique key_of comp (stable_insert key_of comp x ys)
          ≡ inserted key_of comp x (unique key_of comp ys)
    unfolding stable_insert unique unique_after inserted
    unique-stable_insert x [] v = refl
    unique-stable_insert x (y ∷ ys) (b, v) = elim (compared o (key_of x) (key_of y)) [
      | less l n ↦ rw (l, n, l) refl
      | greater n l ↦
          rw (n, l) (ap (λ k. y ∷ k) (unique_after-stable_insert x y ys n b v ∙ rw l refl))
      | equal n m ↦
          rw (n, m) (ap (λ k. y ∷ k) (unique_after-stable_insert x y ys n b v ∙ rw m refl))
    ]

    -- A stable sort that is followed by the removal of duplicates keeps the first element of each key,
    -- as insertion one by one does.
    unique-stable_sort :
        (xs ys : List A)
        → IsOrdered xs
        → unique key_of comp (stable_sort key_of comp xs ys)
          ≡ inserted_all (unique key_of comp xs) ys
    unfolding stable_sort inserted_all
    unique-stable_sort xs [] v = refl
    unique-stable_sort xs (y ∷ ys) v =
        unique-stable_sort (stable_insert key_of comp y xs) ys (IsOrdered-stable_insert y xs v)
        ∙ ap (λ k. inserted_all k ys) (unique-stable_insert y xs v)

    pub IsSorted-inserted_all :
        (xs ys : List A) → IsSorted key_of comp xs → IsSorted key_of comp (inserted_all xs ys)
    unfolding inserted_all
    IsSorted-inserted_all xs [] v = v
    IsSorted-inserted_all xs (y ∷ ys) v =
        IsSorted-inserted_all (inserted key_of comp y xs) ys
          (IsSorted-inserted key_of comp o y xs v)

    -- What was there stays, and of the elements inserted the first of each key counts.
    lookup-inserted_all :
        (key : K) (xs ys : List A)
        → IsSorted key_of comp xs
        → lookup key_of comp key (inserted_all xs ys)
          ≡ first (lookup key_of comp key xs) (lookup key_of comp key ys)
    unfolding inserted_all lookup first
    lookup-inserted_all key xs [] v = sym (first-none (lookup key_of comp key xs))
    lookup-inserted_all key xs (y ∷ ys) v =
        lookup-inserted_all key (inserted key_of comp y xs) ys
          (IsSorted-inserted key_of comp o y xs v)
        ∙ ap (λ k. first k (lookup key_of comp key ys)) (lookup-inserted key_of comp o key y xs v)
        ∙ first-or_else (equivalent comp key (key_of y)) y (lookup key_of comp key xs)
            (lookup key_of comp key ys)

    pub unique-stable_sort_empty :
        (ys : List A) → unique key_of comp (stable_sort key_of comp [] ys) ≡ inserted_all [] ys
    unfolding unique
    unique-stable_sort_empty ys = unique-stable_sort [] ys tt

    pub lookup-inserted_all_empty :
        (key : K) (ys : List A)
        → lookup key_of comp key (inserted_all [] ys) ≡ lookup key_of comp key ys
    unfolding lookup first
    lookup-inserted_all_empty key ys = lookup-inserted_all key [] ys tt
