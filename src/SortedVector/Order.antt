-- ===== src/SortedVector/Order.antt =====
-- What the standard requires of a comparison, and how two keys stand to each other.
use egl_utils_cpp.Prelude.{ltb, arith, ◌≡◌, Bool, true, false, Bool-cases, inl, inr}

module _ {ℓ} {K : Type ℓ} where
  -- A strict weak order.
  pub record IsOrder (comp : K → K → Bool) : Type ℓ where
    pub irreflexive : (a : K) → comp a a ≡ false
    pub transitive : {a b c : K} → comp a b ≡ true → comp b c ≡ true → comp a c ≡ true
    pub apart :
        {a b c : K}
        → comp a b ≡ false
        → comp b a ≡ false
        → comp b c ≡ false
        → comp c b ≡ false
        → comp a c ≡ false

  pub data Compared (comp : K → K → Bool) (a b : K) : Type 0 where
    less : comp a b ≡ true → comp b a ≡ false → Compared comp a b
    greater : comp a b ≡ false → comp b a ≡ true → Compared comp a b
    equal : comp a b ≡ false → comp b a ≡ false → Compared comp a b

module _ {ℓ} {K : Type ℓ} {comp : K → K → Bool} (o : IsOrder comp) where
  asymmetric : {a b : K} → comp a b ≡ true → comp b a ≡ false
  asymmetric {a} {b} l = elim (Bool-cases (comp b a)) [
    | inl g ↦ let h = o.transitive l g in let i = o.irreflexive a in cc
    | inr g ↦ g
  ]

  pub compared : (a b : K) → Compared comp a b
  compared a b = elim (Bool-cases (comp a b)) [
    | inl l ↦ less l (asymmetric l)
    | inr n ↦ elim (Bool-cases (comp b a)) [ inl g ↦ greater n g | inr m ↦ equal n m ]
  ]

  -- Equivalent keys have the same greater keys.
  pub less_of_equal :
      {a b c : K} → comp a b ≡ false → comp b a ≡ false → comp b c ≡ true → comp a c ≡ true
  less_of_equal {a} {b} {c} e e' l = elim (compared a c) [
    | less t _ ↦ t
    | greater _ g ↦ let h = o.transitive l g in cc
    | equal f g ↦ let h = o.apart e' e f g in cc
  ]

  pub less_equal :
      {a b c : K} → comp a b ≡ true → comp b c ≡ false → comp c b ≡ false → comp a c ≡ true
  less_equal {a} {b} {c} l e e' = elim (compared a c) [
    | less t _ ↦ t
    | greater _ g ↦ let h = o.transitive g l in cc
    | equal f g ↦ let h = o.apart f g e' e in cc
  ]

  pub less_at_least : {a b c : K} → comp a b ≡ true → comp c b ≡ false → comp a c ≡ true
  less_at_least {a} {b} {c} l n = elim (compared b c) [
    | less t _ ↦ o.transitive l t
    | greater _ g ↦ absurd (let h = g in cc)
    | equal f g ↦ less_equal l f g
  ]

  -- Below a smaller key there is nothing that is not below the larger one.
  pub at_least_less : {a b c : K} → comp a b ≡ true → comp c b ≡ false → comp c a ≡ false
  at_least_less {a} {b} {c} l n = elim (Bool-cases (comp c a)) [
    | inl t ↦ let h = o.transitive t l in cc
    | inr f ↦ f
  ]

-- The order of the natural numbers.
pub ltb-IsOrder : IsOrder ltb
ltb-IsOrder = record {
  irreflexive = λ a. ground arith;
  transitive = λ l g. ground arith;
  apart = λ e e' f f'. ground arith;
}
