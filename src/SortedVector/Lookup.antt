-- ===== src/SortedVector/Lookup.antt =====
-- Binary search on a sorted vector, against a search from the front.
use egl_utils_cpp.Prelude.{
  ℕ, zero, suc, length, arith, ◌<◌, ◌≤◌, ◌≡◌, refl, sym, Bool, true, false, Option, none, some,
  List, [], ◌∷◌, get_elem?, if◌then◌else◌, Bool-cases, inl, inr,
}
use egl_utils_cpp.SortedVector.{insert_at, lower_bound, matches, equivalent}
use egl_utils_cpp.SortedVector.Order.{IsOrder, less, greater, equal, compared, less_of_equal}

pub get_elem?-insert_at {ℓ} :
    {A : Type ℓ} (xs : List A) (i : ℕ) (x : A)
    → i ≤ length xs
    → get_elem? (insert_at xs i x) i ≡ some x
unfolding insert_at
get_elem?-insert_at xs zero x h = refl
get_elem?-insert_at [] (suc i) x h = absurd (omega arith)
get_elem?-insert_at (y ∷ ys) (suc i) x h = get_elem?-insert_at ys i x (omega arith)

module _ {ℓ ℓ'} {A : Type ℓ} {K : Type ℓ'} (key_of : A → K) (comp : K → K → Bool) where
  -- `key` is less than every key of the vector.
  abbrev pub Below : K → List A → Type 0
  Below key [] = Unit {0}
  Below key (x ∷ xs) = (comp key (key_of x) ≡ true) × Below key xs

  abbrev pub IsSorted : List A → Type 0
  IsSorted [] = Unit {0}
  IsSorted (x ∷ xs) = Below (key_of x) xs × IsSorted xs

  -- The first element with an equivalent key.
  unfoldable pub lookup : K → List A → Option A
  lookup key [] = none
  lookup key (x ∷ xs) =
      let rest = lookup key xs in if equivalent comp key (key_of x) then some x else rest

  pub matches-in_range :
      (key : K) (xs : List A) (i : ℕ)
      → matches key_of comp key (get_elem? xs i) ≡ true
      → i < length xs
  unfolding matches
  matches-in_range key [] i h = absurd (let e = h in cc)
  matches-in_range key (x ∷ xs) zero h = omega arith
  matches-in_range key (x ∷ xs) (suc i) h = let r = matches-in_range key xs i h in omega arith

  pub lower_bound-in_range : (key : K) (xs : List A) → lower_bound key_of comp key xs ≤ length xs
  unfolding lower_bound
  lower_bound-in_range key [] = omega arith
  lower_bound-in_range key (x ∷ xs) =
      let r = lower_bound-in_range key xs in
      elim (Bool-cases (comp (key_of x) key)) [
        | inl t ↦ rw t (omega arith)
        | inr f ↦ rw f (omega arith)
      ]

  module _ (o : IsOrder comp) where
    pub Below-less : {a b : K} (xs : List A) → comp a b ≡ true → Below b xs → Below a xs
    Below-less [] l v = tt
    Below-less (x ∷ xs) l (h, v) = (o.transitive l h, Below-less xs l v)

    pub Below-equal :
        {a b : K} (xs : List A) → comp a b ≡ false → comp b a ≡ false → Below b xs → Below a xs
    Below-equal [] e e' v = tt
    Below-equal (x ∷ xs) e e' (h, v) = (less_of_equal o e e' h, Below-equal xs e e' v)

    pub lookup-Below : (a : K) (xs : List A) → Below a xs → lookup a xs ≡ none
    unfolding lookup
    lookup-Below a [] v = refl
    lookup-Below a (x ∷ xs) (h, v) = rw h (lookup-Below a xs v)

    -- A binary search finds what a search from the front finds.
    pub found-lookup :
        (key : K) (xs : List A)
        → IsSorted xs
        → (let e = get_elem? xs (lower_bound key_of comp key xs) in
            if matches key_of comp key e then e else none)
          ≡ lookup key xs
    unfolding lower_bound matches lookup
    found-lookup key [] v = refl
    found-lookup key (y ∷ ys) (b, v) = elim (compared o (key_of y) key) [
      | less l n ↦ rw (l, n) (found-lookup key ys v)
      | greater n g ↦ rw (n, g) (sym (lookup-Below key ys (Below-less ys g b)))
      | equal n m ↦ rw (n, m) refl
    ]
