-- ===== src/StringFormatter/Checked.antt =====
-- string_formatter.hpp: what `check_format_string` accepts, and what its errors mean.
use egl_utils_cpp.Prelude.{
  ℕ, zero, suc, ◌+◌, ◌≡◌, ◌≢◌, refl, sym, ◌∙◌, ap, subst, true, false, List, [], ◌∷◌, ◌==◌, ==_iff,
  Bool-cases, inl, inr, ◌↔◌, arith,
}
use egl_utils_cpp.StringFormatter.{is_brace}
use egl_utils_cpp.StringFormatter.Check.{
  FormatStringError, none, unterminated_open_brace, stray_close_brace, argument_count_mismatch,
  check_from, check_format_string,
}
use egl_utils_cpp.StringFormatter.Grammar.{
  Item, Spells, finished, plain, doubled_open, doubled_close, open_close, placeholders,
  IsUnterminated, at_end, before, IsStray, close_at_end, close_before, complete, unterminated,
  stray, Reading, reading,
}

-- What an outcome says of a text, for `n` arguments.
abbrev pub Means : FormatStringError → List ℕ → ℕ → Type 0
Means none s n = (items : List Item) × Spells [] s items × (placeholders items ≡ n)
Means argument_count_mismatch s n =
    (items : List Item) × Spells [] s items × (placeholders items ≢ n)
Means unterminated_open_brace s n =
    (items : List Item) × (t : List ℕ) × Spells t s items × IsUnterminated t
Means stray_close_brace s n = (items : List Item) × (t : List ℕ) × Spells t s items × IsStray t

check_from-plain :
    (c : ℕ) (s : List ℕ) (k n : ℕ) → is_brace c ≡ false → check_from (c ∷ s) k n ≡ check_from s k n
unfolding check_from is_brace
check_from-plain c [] k n h = ground arith
check_from-plain c (d ∷ s) k n h = ground arith

-- The scan goes on behind the items with their placeholders counted.
check_from-Spells :
    {t s : List ℕ} {items : List Item} (k n : ℕ)
    → Spells t s items
    → check_from s k n ≡ check_from t (k + placeholders items) n
unfolding check_from placeholders
check_from-Spells {t} k n finished = ap (λ j. check_from t j n) (omega arith)
check_from-Spells k n (plain {c} {s} h d) = check_from-plain c s k n h ∙ check_from-Spells k n d
check_from-Spells k n (doubled_open d) = check_from-Spells k n d
check_from-Spells k n (doubled_close d) = check_from-Spells k n d
check_from-Spells {t} k n (open_close d) =
    check_from-Spells (suc k) n d ∙ ap (λ j. check_from t j n) (omega arith)

check_format_string-Spells :
    {t s : List ℕ} {items : List Item} (n : ℕ)
    → Spells t s items
    → check_format_string s n ≡ check_from t (placeholders items) n
unfolding check_format_string
check_format_string-Spells {t} n d =
    check_from-Spells zero n d ∙ ap (λ j. check_from t j n) (omega arith)

check_from-IsUnterminated :
    {t : List ℕ} (k n : ℕ) → IsUnterminated t → check_from t k n ≡ unterminated_open_brace
unfolding check_from is_brace
check_from-IsUnterminated k n at_end = refl
check_from-IsUnterminated k n (before h) = ground arith

check_from-IsStray : {t : List ℕ} (k n : ℕ) → IsStray t → check_from t k n ≡ stray_close_brace
unfolding check_from
check_from-IsStray k n close_at_end = refl
check_from-IsStray k n (close_before h) = ground arith

-- What is accepted and rejected at the end of the text.
count-Means :
    (items : List Item) (s : List ℕ) (n : ℕ)
    → Spells [] s items
    → Means (check_from [] (placeholders items) n) s n
unfolding check_from
count-Means items s n d = elim (Bool-cases (placeholders items == n)) [
  | inl e ↦ rw e (items, d, (==_iff _ n).0 e)
  | inr f ↦ rw f (items, d, λ e. absurd (let g : true ≡ false = sym ((==_iff _ n).1 e) ∙ f in cc))
]

Reading-Means : (s : List ℕ) (n : ℕ) → Reading s → Means (check_format_string s n) s n
Reading-Means s n (items, t, d, complete) =
    subst (λ e. Means e s n) (sym (check_format_string-Spells n d)) (count-Means items s n d)
Reading-Means s n (items, t, d, unterminated u) =
    subst (λ e. Means e s n)
      (sym (check_format_string-Spells n d ∙ check_from-IsUnterminated (placeholders items) n u))
      (items, t, d, u)
Reading-Means s n (items, t, d, stray u) =
    subst (λ e. Means e s n)
      (sym (check_format_string-Spells n d ∙ check_from-IsStray (placeholders items) n u))
      (items, t, d, u)

Means→eq : (e : FormatStringError) (s : List ℕ) (n : ℕ) → Means e s n → check_format_string s n ≡ e
unfolding check_from
Means→eq none s n (items, d, e) = check_format_string-Spells n d ∙ rw ((==_iff _ n).1 e) refl
Means→eq argument_count_mismatch s n (items, d, ne) =
    check_format_string-Spells n d ∙ elim (Bool-cases (placeholders items == n)) [
      | inl e ↦ absurd (ne ((==_iff _ n).0 e))
      | inr f ↦ rw f refl
    ]
Means→eq unterminated_open_brace s n (items, t, d, u) =
    check_format_string-Spells n d ∙ check_from-IsUnterminated (placeholders items) n u
Means→eq stray_close_brace s n (items, t, d, u) =
    check_format_string-Spells n d ∙ check_from-IsStray (placeholders items) n u

-- The outcome of a scan, for any text and number of arguments: none exactly where the text is spelled
-- by literal bytes, doubled braces and as many placeholders as there are arguments; a mismatch exactly
-- where it is spelled by them with another number of placeholders; an unterminated or a stray brace
-- exactly where a `{` or a `}` that stands alone follows such a spelling.
pub check_format_string_iff :
    (e : FormatStringError) (s : List ℕ) (n : ℕ) → (check_format_string s n ≡ e) ↔ Means e s n
check_format_string_iff e s n =
    (λ h. subst (λ x. Means x s n) h (Reading-Means s n (reading s)), Means→eq e s n)
