-- ===== src/Prelude/Text.antt =====
-- Texts as the lists of their bytes.
use Prim.Native.Nat.{ℕ}
use Prim.Native.String.{String}
use Prim.Native.Char.{code}
use mathlib.Core.Path.{◌≡◌, refl, sym, ap₂, ◌∙◌}
use mathlib.Core.Logic.{inl, inr}
use mathlib.Core.Bool.{Bool, true, false, ◌&&◌}
use mathlib.Core.List.{List, [], ◌∷◌}
use egl_utils_cpp.Prelude.Tests.{◌==◌, ==_iff, Bool-cases}

-- The bytes of a text, which is ASCII.
abbrev pub codes : String → List ℕ
codes String.[] = []
codes (String.◌∷◌ c s) = code c ∷ codes s

-- `==` of `std::string` and `std::string_view`.
unfoldable pub str_eq : List ℕ → List ℕ → Bool
str_eq [] [] = true
str_eq [] (b ∷ t) = false
str_eq (a ∷ s) [] = false
str_eq (a ∷ s) (b ∷ t) = let rest = str_eq s t in a == b && rest

pub str_eq_refl : (s : List ℕ) → str_eq s s ≡ true
unfolding str_eq
str_eq_refl [] = refl
str_eq_refl (a ∷ s) = rw ((==_iff a a).1 refl) (str_eq_refl s)

pub str_eq→eq : (s t : List ℕ) → str_eq s t ≡ true → s ≡ t
unfolding str_eq
str_eq→eq [] [] h = refl
str_eq→eq [] (b ∷ t) h = absurd (let e = h in cc)
str_eq→eq (a ∷ s) [] h = absurd (let e = h in cc)
str_eq→eq (a ∷ s) (b ∷ t) h = elim (Bool-cases (a == b)) [
  | inl e ↦
      let more : str_eq s t ≡ true = sym (rw e refl) ∙ h in
      ap₂ (λ x xs. x ∷ xs) ((==_iff a b).0 e) (str_eq→eq s t more)
  | inr n ↦ absurd (let f : false ≡ true = sym (rw n refl) ∙ h in cc)
]
