-- ===== src/StringSplitter/Search.antt =====
-- The search for the delimiter: what stands before and behind its first occurrence.
use egl_utils_cpp.Prelude.{
  ℕ, zero, suc, ◌⊎◌, ◌+◌, ◌≤◌, ◌≡◌, refl, sym, ◌∙◌, ap, ap₂, true, false, Option, none, some, List,
  [], ◌∷◌, ◌++◌, length, take, drop, length-append, length-take, ◌==◌, Bool-cases, Option-cases,
  inl, inr, arith, ==_iff,
}
use egl_utils_cpp.StringSplitter.{starts_with, shifted, offset_of}

starts_with-append : (d t : List ℕ) → starts_with d t ≡ true → t ≡ d ++ drop (length d) t
unfolding starts_with
starts_with-append [] t h = refl
starts_with-append (a ∷ d) [] h = absurd (let e = h in cc)
starts_with-append (a ∷ d) (b ∷ t) h = elim (Bool-cases (a == b)) [
  | inl e ↦
      let more : starts_with d t ≡ true = sym (rw e refl) ∙ h in
      ap₂ (λ x xs. x ∷ xs) (sym ((==_iff a b).0 e)) (starts_with-append d t more)
  | inr n ↦ absurd (let f : false ≡ true = sym (rw n refl) ∙ h in cc)
]

starts_with-take : (d t : List ℕ) (k : ℕ) → starts_with d (take k t) ≡ true → starts_with d t ≡ true
unfolding starts_with
starts_with-take [] t k h = refl
starts_with-take (a ∷ d) t zero h = absurd (let e = h in cc)
starts_with-take (a ∷ d) [] (suc k) h = h
starts_with-take (a ∷ d) (b ∷ t) (suc k) h = elim (Bool-cases (a == b)) [
  | inl e ↦
      let more : starts_with d (take k t) ≡ true = sym (rw e refl) ∙ h in
      rw e (starts_with-take d t k more)
  | inr n ↦ absurd (let f : false ≡ true = sym (rw n refl) ∙ h in cc)
]

value_of : Option ℕ → ℕ
value_of none = 0
value_of (some k) = k

-- The delimiter is `a ∷ d` from here on: the source wants one that is not empty.
module _ (a : ℕ) (d : List ℕ) where
  offset_cases :
      (c : ℕ) (t : List ℕ) (k : ℕ)
      → offset_of (a ∷ d) (c ∷ t) ≡ some k
      → ((starts_with (a ∷ d) (c ∷ t) ≡ true) × (k ≡ 0))
        ⊎ ((starts_with (a ∷ d) (c ∷ t) ≡ false)
            × ((j : ℕ) × (offset_of (a ∷ d) t ≡ some j) × (k ≡ suc j)))
  unfolding offset_of shifted value_of
  offset_cases c t k h = elim (Bool-cases (starts_with (a ∷ d) (c ∷ t))) [
    | inl e ↦ let first : some 0 ≡ some k = sym (rw e refl) ∙ h in inl (e, sym (ap value_of first))
    | inr n ↦ elim (Option-cases (offset_of (a ∷ d) t)) [
      | inl absent ↦ let first : none ≡ some k = sym (rw (n, absent) refl) ∙ h in absurd (cc)
      | inr (j, found) ↦
          let first : some (1 + j) ≡ some k = sym (rw (n, found) refl) ∙ h in
          let size : 1 + j ≡ k = ap value_of first in inr (n, (j, found, omega arith))
    ]
  ]

  pub offset_of-append :
      (t : List ℕ) (k : ℕ)
      → offset_of (a ∷ d) t ≡ some k
      → t ≡ take k t ++ ((a ∷ d) ++ drop (k + length (a ∷ d)) t)
  unfolding offset_of starts_with
  offset_of-append [] k h = absurd (let e = h in cc)
  offset_of-append (c ∷ t) k h = elim (offset_cases c t k h) [
    | inl (e, z) ↦
        let size : length (a ∷ d) ≡ 0 + length (a ∷ d) = omega arith in
        rw z (starts_with-append (a ∷ d) (c ∷ t) e ∙ ap (λ n. (a ∷ d) ++ drop n (c ∷ t)) size)
    | inr (n, (j, found, s)) ↦
        let size : suc (j + length (a ∷ d)) ≡ suc j + length (a ∷ d) = omega arith in
        rw s (
          ap (λ xs. c ∷ xs) (offset_of-append t j found)
          ∙ ap (λ n. c ∷ (take j t ++ ((a ∷ d) ++ drop n (c ∷ t)))) size)
  ]

  -- A token ends where the first occurrence begins, so that there is none in it.
  pub offset_of-take :
      (t : List ℕ) (k : ℕ) → offset_of (a ∷ d) t ≡ some k → offset_of (a ∷ d) (take k t) ≡ none
  unfolding offset_of starts_with shifted
  offset_of-take [] k h = absurd (let e = h in cc)
  offset_of-take (c ∷ t) k h = elim (offset_cases c t k h) [
    | inl (e, z) ↦ rw z refl
    | inr (n, (j, found, s)) ↦ elim (Bool-cases (starts_with (a ∷ d) (c ∷ take j t))) [
      | inl e ↦ let whole = starts_with-take (a ∷ d) (c ∷ t) (suc j) e in absurd (cc)
      | inr m ↦ rw s (rw (m, offset_of-take t j found) refl)
    ]
  ]

  pub offset_of-in_range :
      (t : List ℕ) (k : ℕ) → offset_of (a ∷ d) t ≡ some k → k + length (a ∷ d) ≤ length t
  offset_of-in_range t k h =
      let whole = ap length (offset_of-append t k h) in
      let sum = length-append (take k t) ((a ∷ d) ++ drop (k + length (a ∷ d)) t) in
      let sum' = length-append (a ∷ d) (drop (k + length (a ∷ d)) t) in
      let front = length-take k t in omega arith
