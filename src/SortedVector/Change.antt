-- ===== src/SortedVector/Change.antt =====
-- Insertion and removal on a sorted vector, and what a search finds after them.
use egl_utils_cpp.Prelude.{
  ◌≡◌, refl, sym, ◌∙◌, Bool, true, false, Option, none, some, List, [], ◌∷◌, get_elem?,
  if◌then◌else◌, Bool-cases, inl, inr, ap,
}
use egl_utils_cpp.SortedVector.{insert_at, erase_at, lower_bound, matches, equivalent}
use egl_utils_cpp.SortedVector.Order.{IsOrder, less, greater, equal, compared, less_of_equal}
use egl_utils_cpp.SortedVector.Lookup.{
  Below, IsSorted, lookup, Below-less, Below-equal, lookup-Below,
}

unfoldable pub or_else {ℓ} : {A : Type ℓ} → Option A → A → Option A
or_else none x = some x
or_else (some y) x = some y

if-same {ℓ} : {A : Type ℓ} (b : Bool) (x : A) → (if b then x else x) ≡ x
if-same true x = refl
if-same false x = refl

cons-if {ℓ} :
    {A : Type ℓ} (x : A) (b : Bool) (ys zs : List A)
    → (if b then x ∷ ys else x ∷ zs) ≡ (x ∷ (if b then ys else zs))
cons-if x true ys zs = refl
cons-if x false ys zs = refl

module _ {ℓ ℓ'} {A : Type ℓ} {K : Type ℓ'} (key_of : A → K) (comp : K → K → Bool) where
  -- The vector after an insertion that leaves an equivalent key alone.
  unfoldable pub inserted : A → List A → List A
  inserted x [] = x ∷ []
  inserted x (y ∷ ys) =
      let rest = inserted x ys in
      if comp (key_of y) (key_of x)
      then y ∷ rest
      else if comp (key_of x) (key_of y)
      then x ∷ y ∷ ys
      else y ∷ ys

  pub erased : K → List A → List A
  erased key [] = []
  erased key (y ∷ ys) =
      let rest = erased key ys in
      if comp (key_of y) key then y ∷ rest else if comp key (key_of y) then y ∷ ys else ys

  -- The code's insertion and removal: a binary search, a test, and a move of the elements behind.
  pub inserted-eq :
      (x : A) (xs : List A)
      → (let pos = lower_bound key_of comp (key_of x) xs in
          if matches key_of comp (key_of x) (get_elem? xs pos) then xs else insert_at xs pos x)
        ≡ inserted x xs
  unfolding lower_bound matches insert_at inserted
  inserted-eq x [] = refl
  inserted-eq x (y ∷ ys) = elim (Bool-cases (comp (key_of y) (key_of x))) [
    | inl l ↦ rw l (cons-if y _ ys _ ∙ ap (λ zs. y ∷ zs) (inserted-eq x ys))
    | inr n ↦ elim (Bool-cases (comp (key_of x) (key_of y))) [
      | inl g ↦ rw (n, g) refl
      | inr m ↦ rw (n, m) refl
    ]
  ]

  pub erased-eq :
      (key : K) (xs : List A)
      → (let pos = lower_bound key_of comp key xs in
          if matches key_of comp key (get_elem? xs pos) then erase_at xs pos else xs)
        ≡ erased key xs
  unfolding lower_bound matches erase_at erased
  erased-eq key [] = refl
  erased-eq key (y ∷ ys) = elim (Bool-cases (comp (key_of y) key)) [
    | inl l ↦ rw l (cons-if y _ _ ys ∙ ap (λ zs. y ∷ zs) (erased-eq key ys))
    | inr n ↦ elim (Bool-cases (comp key (key_of y))) [
      | inl g ↦ rw (n, g) refl
      | inr m ↦ rw (n, m) refl
    ]
  ]

  module _ (o : IsOrder comp) where
    Below-inserted :
        {a : K} (x : A) (xs : List A)
        → comp a (key_of x) ≡ true
        → Below key_of comp a xs
        → Below key_of comp a (inserted x xs)
    unfolding inserted
    Below-inserted x [] h v = (h, tt)
    Below-inserted {a} x (y ∷ ys) h (g, v) = elim (compared o (key_of y) (key_of x)) [
      | less l n ↦ rw l (g, Below-inserted x ys h v)
      | greater n l ↦ rw (n, l) (h, (g, v))
      | equal n m ↦ rw (n, m) (g, v)
    ]

    pub IsSorted-inserted :
        (x : A) (xs : List A) → IsSorted key_of comp xs → IsSorted key_of comp (inserted x xs)
    unfolding inserted
    IsSorted-inserted x [] v = (tt, tt)
    IsSorted-inserted x (y ∷ ys) (b, v) = elim (compared o (key_of y) (key_of x)) [
      | less l n ↦ rw l (Below-inserted x ys l b, IsSorted-inserted x ys v)
      | greater n l ↦ rw (n, l) ((l, Below-less key_of comp o ys l b), (b, v))
      | equal n m ↦ rw (n, m) (b, v)
    ]

    Below-erased :
        (a key : K) (xs : List A) → Below key_of comp a xs → Below key_of comp a (erased key xs)
    unfolding erased
    Below-erased a key [] v = tt
    Below-erased a key (y ∷ ys) (h, v) = elim (compared o (key_of y) key) [
      | less l n ↦ rw l (h, Below-erased a key ys v)
      | greater n l ↦ rw (n, l) (h, v)
      | equal n m ↦ rw (n, m) v
    ]

    pub IsSorted-erased :
        (key : K) (xs : List A) → IsSorted key_of comp xs → IsSorted key_of comp (erased key xs)
    unfolding erased
    IsSorted-erased key [] v = tt
    IsSorted-erased key (y ∷ ys) (b, v) = elim (compared o (key_of y) key) [
      | less l n ↦ rw l (Below-erased _ key ys b, IsSorted-erased key ys v)
      | greater n l ↦ rw (n, l) (b, v)
      | equal n m ↦ rw (n, m) v
    ]

    -- An insertion is seen under the keys that are equivalent to its own, and only where they had no
    -- element before.
    pub lookup-inserted :
        (key : K) (x : A) (xs : List A)
        → IsSorted key_of comp xs
        → lookup key_of comp key (inserted x xs) ≡ (
            if equivalent comp key (key_of x)
            then or_else (lookup key_of comp key xs) x
            else lookup key_of comp key xs)
    unfolding lookup inserted or_else
    lookup-inserted key x [] v = elim (compared o key (key_of x)) [
      | less l n ↦ rw l refl
      | greater n l ↦ rw (n, l) refl
      | equal n m ↦ rw (n, m) refl
    ]
    lookup-inserted key x (y ∷ ys) (b, v) = elim (compared o (key_of y) (key_of x)) [
      | less l n ↦ elim (compared o key (key_of y)) [
        | less e e' ↦ rw (l, e) (lookup-inserted key x ys v)
        | greater e e' ↦ rw (l, e, e') (lookup-inserted key x ys v)
        | equal e e' ↦ rw (l, e, e') (sym (if-same _ (some y)))
      ]
      | greater n l ↦ elim (compared o key (key_of x)) [
        | less e e' ↦ rw (n, l, e) refl
        | greater e e' ↦ rw (n, l, e, e') refl
        | equal e e' ↦
            let above =
              Below-equal key_of comp o (y ∷ ys) e e' (l, Below-less key_of comp o ys l b) in
            rw (n, l, e, e')
              (sym (ap (λ r. or_else r x) (lookup-Below key_of comp o key (y ∷ ys) above)))
      ]
      | equal n m ↦ elim (compared o key (key_of x)) [
        | less e e' ↦ rw (n, m, e) refl
        | greater e e' ↦ rw (n, m, e, e') refl
        | equal e e' ↦ rw (n, m, e, e', o.apart e e' m n, o.apart n m e' e) refl
      ]
    ]

    pub lookup-erased :
        (key' key : K) (xs : List A)
        → IsSorted key_of comp xs
        → lookup key_of comp key' (erased key xs)
          ≡ (if equivalent comp key' key then none else lookup key_of comp key' xs)
    unfolding lookup erased
    lookup-erased key' key [] v = sym (if-same _ none)
    lookup-erased key' key (y ∷ ys) (b, v) = elim (compared o (key_of y) key) [
      | less l n ↦ elim (compared o key' (key_of y)) [
        | less e e' ↦ rw (l, e) (lookup-erased key' key ys v)
        | greater e e' ↦ rw (l, e, e') (lookup-erased key' key ys v)
        | equal e e' ↦ rw (l, e, e', less_of_equal o e e' l) refl
      ]
      | greater n l ↦ elim (compared o key' key) [
        | less e e' ↦ rw (n, l, e) refl
        | greater e e' ↦ rw (n, l, e, e') refl
        | equal e e' ↦
            let above =
              Below-equal key_of comp o (y ∷ ys) e e' (l, Below-less key_of comp o ys l b) in
            rw (n, l, e, e') (lookup-Below key_of comp o key' (y ∷ ys) above)
      ]
      | equal n m ↦ elim (compared o key' key) [
        | less e e' ↦ elim (compared o key' (key_of y)) [
          | less f f' ↦ rw (n, m, e, f) refl
          | greater f f' ↦ rw (n, m, e, f, f') refl
          | equal f f' ↦ let h = o.apart f f' n m in cc
        ]
        | greater e e' ↦ elim (compared o key' (key_of y)) [
          | less f f' ↦ rw (n, m, e, e', f) refl
          | greater f f' ↦ rw (n, m, e, e', f, f') refl
          | equal f f' ↦ let h = o.apart m n f' f in cc
        ]
        | equal e e' ↦
            let above = Below-equal key_of comp o ys (o.apart e e' m n) (o.apart n m e' e) b in
            rw (n, m, e, e') (lookup-Below key_of comp o key' ys above)
      ]
    ]
