-- ===== src/CliParser/Same.antt =====
-- Options that differ in `seen` only are found by the same names.
use egl_utils_cpp.Prelude.{
  ℕ, zero, suc, ◌≡◌, refl, Bool, true, some, List, [], ◌∷◌, get_elem?, set, arith,
}
use egl_utils_cpp.CliParser.Types.{OptionSpec}
use egl_utils_cpp.CliParser.Register.{find_option}
use egl_utils_cpp.CliParser.Loop.{unseen_options}

module _ {S : Type 0} where
  abbrev pub IsSame : OptionSpec S → OptionSpec S → Type 0
  IsSame o o' = record o { seen = true } ≡ record o' { seen = true }

  abbrev pub AreSame : List (OptionSpec S) → List (OptionSpec S) → Type 0
  AreSame [] [] = Unit {0}
  AreSame [] (o' ∷ os') = ⊥
  AreSame (o ∷ os) [] = ⊥
  AreSame (o ∷ os) (o' ∷ os') = IsSame o o' × AreSame os os'

  pub get_elem?-AreSame :
      (os os' : List (OptionSpec S)) (i : ℕ) {o : OptionSpec S}
      → AreSame os os'
      → get_elem? os i ≡ some o
      → (o' : OptionSpec S) × (get_elem? os' i ≡ some o') × IsSame o o'
  get_elem?-AreSame [] os' i v h = absurd (let e = h in cc)
  get_elem?-AreSame (o ∷ os) [] i v h = absurd v
  get_elem?-AreSame (o ∷ os) (o' ∷ os') zero (e, v) h = (o', refl, cc)
  get_elem?-AreSame (o ∷ os) (o' ∷ os') (suc i) (e, v) h = get_elem?-AreSame os os' i v h

  pub find_option-AreSame :
      (p : OptionSpec S → Bool) (os os' : List (OptionSpec S))
      → ((o o' : OptionSpec S) → IsSame o o' → p o ≡ p o')
      → AreSame os os'
      → find_option p os' ≡ find_option p os
  unfolding find_option
  find_option-AreSame p [] [] k v = refl
  find_option-AreSame p [] (o' ∷ os') k v = absurd v
  find_option-AreSame p (o ∷ os) [] k v = absurd v
  find_option-AreSame p (o ∷ os) (o' ∷ os') k (e, v) =
      ground (arith, k o o' e, find_option-AreSame p os os' k v)

  pub set-AreSame :
      (os os' : List (OptionSpec S)) (i : ℕ) {o : OptionSpec S}
      → AreSame os os'
      → get_elem? os' i ≡ some o
      → AreSame os (set os' i (record o { seen = true }))
  set-AreSame [] [] i v h = tt
  set-AreSame [] (o' ∷ os') i v h = absurd v
  set-AreSame (o ∷ os) [] i v h = absurd v
  set-AreSame (o ∷ os) (o' ∷ os') zero (e, v) h = (cc, v)
  set-AreSame (o ∷ os) (o' ∷ os') (suc i) (e, v) h = (e, set-AreSame os os' i v h)

  pub unseen_options-AreSame : (os : List (OptionSpec S)) → AreSame os (unseen_options os)
  unfolding unseen_options
  unseen_options-AreSame [] = tt
  unseen_options-AreSame (o ∷ os) = (refl, unseen_options-AreSame os)
