-- ===== src/SortedVector/Members.antt =====
-- Whether a vector has an element that is equivalent to a value, whatever its order.
use egl_utils_cpp.Prelude.{
  ◌≡◌, refl, sym, ◌∙◌, ap, ap₂, Bool, true, false, ◌&&◌, ◌||◌, Option, none, some, List, [], ◌∷◌,
  get_elem?, get_elem?-eq-some, if◌then◌else◌, Bool-cases, inl, inr,
}
use mathlib.Core.List.{Permᴰ}
use egl_utils_cpp.SortedVector.{lower_bound, matches, equivalent, unique, unique_after}
use egl_utils_cpp.SortedVector.Order.{
  IsOrder, less, greater, equal, compared, less_equal, less_of_equal,
}
use egl_utils_cpp.SortedVector.Lookup.{
  IsSorted, Below, lookup, matches-in_range, found-lookup, Below-less,
}
use egl_utils_cpp.SortedVector.Change.{inserted, erased, lookup-inserted, lookup-erased, or_else}
use egl_utils_cpp.SortedVector.Build.{IsOrdered, AtLeast}

is_some {ℓ} : {A : Type ℓ} → Option A → Bool
is_some none = false
is_some (some x) = true

is_some-or_else {ℓ} :
    {A : Type ℓ} (b : Bool) (x : A) (e : Option A)
    → is_some (if b then or_else e x else e) ≡ (if b then true else is_some e)
unfolding is_some or_else
is_some-or_else false x e = refl
is_some-or_else true x none = refl
is_some-or_else true x (some y) = refl

is_some_of_none {ℓ} :
    {A : Type ℓ} (b : Bool) (e : Option A)
    → is_some (if b then none else e) ≡ (if b then false else is_some e)
unfolding is_some
is_some_of_none false e = refl
is_some_of_none true e = refl

and_false : (b : Bool) → (b && false) ≡ false
and_false true = refl
and_false false = refl

or_again : (b c : Bool) → (b || c) ≡ (b || (b || c))
or_again true c = refl
or_again false c = refl

or_swap : (a b c : Bool) → (a || (b || c)) ≡ (b || (a || c))
or_swap true true c = refl
or_swap true false c = refl
or_swap false b c = refl

equivalent_right {ℓ} :
    {K : Type ℓ} {comp : K → K → Bool} (o : IsOrder comp) (key : K) {a b : K}
    → comp a b ≡ false
    → comp b a ≡ false
    → equivalent comp key a ≡ equivalent comp key b
equivalent_right o key {a} n m = elim (compared o key a) [
  | less e e' ↦ rw (e, less_equal o e n m) refl
  | greater e e' ↦ rw (e, e', less_of_equal o m n e') (sym (and_false _))
  | equal e e' ↦ rw (e, e', o.apart e e' n m, o.apart m n e' e) refl
]

module _ {ℓ ℓ'} {A : Type ℓ} {K : Type ℓ'} (key_of : A → K) (comp : K → K → Bool) where
  pub has : K → List A → Bool
  has key [] = false
  has key (x ∷ xs) = equivalent comp key (key_of x) || has key xs

  module _ (o : IsOrder comp) where
    has-unique_after :
        (key : K) (x : A) (xs : List A)
        → (equivalent comp key (key_of x) || has key (unique_after key_of comp x xs))
          ≡ (equivalent comp key (key_of x) || has key xs)
    unfolding has unique_after
    has-unique_after key x [] = refl
    has-unique_after key x (y ∷ ys) = elim (compared o (key_of x) (key_of y)) [
      | less l n ↦ rw l (ap (λ b. equivalent comp key (key_of x) || b) (has-unique_after key y ys))
      | greater n l ↦
          rw (n, l) (ap (λ b. equivalent comp key (key_of x) || b) (has-unique_after key y ys))
      | equal n m ↦
          rw (n, m)
            (has-unique_after key x ys
              ∙ or_again (equivalent comp key (key_of x)) (has key ys)
              ∙ ap (λ b. equivalent comp key (key_of x) || (b || has key ys))
                  (equivalent_right o key n m))
    ]

    pub has-Perm : (key : K) {xs ys : List A} → Permᴰ xs ys → has key xs ≡ has key ys
    unfolding has
    has-Perm key Permᴰ.nil = refl
    has-Perm key (Permᴰ.cons e p) =
        ap₂ (λ a b. equivalent comp key (key_of a) || b) e (has-Perm key p)
    has-Perm key (Permᴰ.swap {a} {b} {l = l} e e') =
        or_swap (equivalent comp key (key_of a)) (equivalent comp key (key_of b)) (has key l)
        ∙ ap₂
            (λ u v. equivalent comp key (key_of u) || (equivalent comp key (key_of v) || has key l))
            e' e
    has-Perm key (Permᴰ.trans p q) = has-Perm key p ∙ has-Perm key q

    pub has-unique : (key : K) (xs : List A) → has key (unique key_of comp xs) ≡ has key xs
    unfolding has unique
    has-unique key [] = refl
    has-unique key (x ∷ xs) = has-unique_after key x xs

    unique_after-IsSorted :
        (x : A) (xs : List A)
        → AtLeast key_of comp (key_of x) xs
        → IsOrdered key_of comp xs
        → Below key_of comp (key_of x) (unique_after key_of comp x xs)
          × IsSorted key_of comp (unique_after key_of comp x xs)
    unfolding unique_after
    unique_after-IsSorted x [] b v = (tt, tt)
    unique_after-IsSorted x (y ∷ ys) (h, b) (c, v) = elim (compared o (key_of x) (key_of y)) [
      | less l n ↦
          let (low, sorted) = unique_after-IsSorted y ys c v in
          rw l ((l, Below-less key_of comp o (unique_after key_of comp y ys) l low), (low, sorted))
      | greater n l ↦ absurd (let e = h in cc)
      | equal n m ↦ rw (n, m) (unique_after-IsSorted x ys b v)
    ]

    pub unique-IsSorted :
        (xs : List A) → IsOrdered key_of comp xs → IsSorted key_of comp (unique key_of comp xs)
    unfolding unique
    unique-IsSorted [] v = tt
    unique-IsSorted (x ∷ xs) (b, v) = unique_after-IsSorted x xs b v

    is_some-lookup : (key : K) (xs : List A) → is_some (lookup key_of comp key xs) ≡ has key xs
    unfolding lookup has is_some
    is_some-lookup key [] = refl
    is_some-lookup key (x ∷ xs) = elim (Bool-cases (equivalent comp key (key_of x))) [
      | inl t ↦ rw t refl
      | inr f ↦ rw f (is_some-lookup key xs)
    ]

    -- A binary search says whether there is an equivalent element.
    pub found-has :
        (key : K) (xs : List A)
        → IsSorted key_of comp xs
        → matches key_of comp key (get_elem? xs (lower_bound key_of comp key xs)) ≡ has key xs
    unfolding is_some
    found-has key xs v =
        let e = get_elem? xs (lower_bound key_of comp key xs) in
        let split : matches key_of comp key e
            ≡ is_some (if matches key_of comp key e then e else none) =
          elim (Bool-cases (matches key_of comp key e)) [
            | inl t ↦
                let (x, at) = get_elem?-eq-some xs _ (matches-in_range key_of comp key xs _ t) in
                rw (t, at) refl
            | inr f ↦ rw f refl
          ] in
        split ∙ ap is_some (found-lookup key_of comp o key xs v) ∙ is_some-lookup key xs

    pub has-inserted :
        (key : K) (x : A) (xs : List A)
        → IsSorted key_of comp xs
        → has key (inserted key_of comp x xs)
          ≡ (if equivalent comp key (key_of x) then true else has key xs)
    has-inserted key x xs v =
        sym (is_some-lookup key (inserted key_of comp x xs))
        ∙ ap is_some (lookup-inserted key_of comp o key x xs v)
        ∙ is_some-or_else (equivalent comp key (key_of x)) x (lookup key_of comp key xs)
        ∙ ap (λ b. if equivalent comp key (key_of x) then true else b) (is_some-lookup key xs)

    pub has-erased :
        (other key : K) (xs : List A)
        → IsSorted key_of comp xs
        → has other (erased key_of comp key xs)
          ≡ (if equivalent comp other key then false else has other xs)
    has-erased other key xs v =
        sym (is_some-lookup other (erased key_of comp key xs))
        ∙ ap is_some (lookup-erased key_of comp o other key xs v)
        ∙ is_some_of_none (equivalent comp other key) (lookup key_of comp other xs)
        ∙ ap (λ b. if equivalent comp other key then false else b) (is_some-lookup other xs)
