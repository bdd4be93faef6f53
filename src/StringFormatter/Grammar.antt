-- ===== src/StringFormatter/Grammar.antt =====
-- string_formatter.hpp: what a format string is, apart from the scanners: a sequence of literal
-- bytes, doubled braces and placeholders; what is none; and the text that it stands for.
use egl_utils_cpp.Prelude.{
  ℕ, zero, suc, ◌≡◌, sym, subst, ◌⊎◌, inl, inr, Bool-cases, ==_iff, arith, false, List, [], ◌∷◌,
  ◌++◌, ◌==◌,
}
use egl_utils_cpp.StringFormatter.{is_brace}

pub data Item : Type 0 where
  literal : ℕ → Item
  placeholder : Item

-- `Spells t s items`: the text `s` begins with the spelling of `items`, and `t` is what follows it.
pub data Spells (t : List ℕ) : List ℕ → List Item → Type 0 where
  finished : Spells t t []
  plain :
      {c : ℕ} {s : List ℕ} {items : List Item}
      → is_brace c ≡ false
      → Spells t s items
      → Spells t (c ∷ s) (literal c ∷ items)
  doubled_open :
      {s : List ℕ} {items : List Item}
      → Spells t s items
      → Spells t (b'{' ∷ b'{' ∷ s) (literal b'{' ∷ items)
  doubled_close :
      {s : List ℕ} {items : List Item}
      → Spells t s items
      → Spells t (b'}' ∷ b'}' ∷ s) (literal b'}' ∷ items)
  open_close :
      {s : List ℕ} {items : List Item}
      → Spells t s items
      → Spells t (b'{' ∷ b'}' ∷ s) (placeholder ∷ items)

unfoldable pub placeholders : List Item → ℕ
placeholders [] = zero
placeholders (literal c ∷ items) = placeholders items
placeholders (placeholder ∷ items) = suc (placeholders items)

-- The literal bytes, with the texts in place of the placeholders in order.
unfoldable pub rendered : List Item → List (List ℕ) → List ℕ
rendered [] texts = []
rendered (literal c ∷ items) texts = c ∷ rendered items texts
rendered (placeholder ∷ items) [] = rendered items []
rendered (placeholder ∷ items) (t ∷ texts) = t ++ rendered items texts

-- Where a text goes on as no format string does: a lone `{`, and a lone `}`.
pub data IsUnterminated : List ℕ → Type 0 where
  at_end : IsUnterminated (b'{' ∷ [])
  before : {c : ℕ} {s : List ℕ} → is_brace c ≡ false → IsUnterminated (b'{' ∷ c ∷ s)

pub data IsStray : List ℕ → Type 0 where
  close_at_end : IsStray (b'}' ∷ [])
  close_before : {c : ℕ} {s : List ℕ} → (c == b'}') ≡ false → IsStray (b'}' ∷ c ∷ s)

pub data IsEnd : List ℕ → Type 0 where
  complete : IsEnd []
  unterminated : {t : List ℕ} → IsUnterminated t → IsEnd t
  stray : {t : List ℕ} → IsStray t → IsEnd t

-- The items that a text begins with, up to its end or its first lone brace.
abbrev pub Reading : List ℕ → Type 0
Reading s = (items : List Item) × (t : List ℕ) × Spells t s items × IsEnd t

brace_cases : (c : ℕ) → (c ≡ b'{') ⊎ (c ≡ b'}') ⊎ (is_brace c ≡ false)
unfolding is_brace
brace_cases c = ground arith

read_open : (d : ℕ) (s : List ℕ) → Reading s → Reading (b'{' ∷ d ∷ s)
read_open d s (items, t, spelled, end) = elim (brace_cases d) [
  | inl e ↦ subst (λ x. Reading (b'{' ∷ x ∷ s)) (sym e) (_, t, doubled_open spelled, end)
  | inr (inl e) ↦ subst (λ x. Reading (b'{' ∷ x ∷ s)) (sym e) (_, t, open_close spelled, end)
  | inr (inr n) ↦ ([], _, finished, unterminated (before n))
]

read_close : (d : ℕ) (s : List ℕ) → Reading s → Reading (b'}' ∷ d ∷ s)
read_close d s (items, t, spelled, end) = elim (Bool-cases (d == b'}')) [
  | inl e ↦
      subst (λ x. Reading (b'}' ∷ x ∷ s)) (sym ((==_iff d b'}').0 e))
        (_, t, doubled_close spelled, end)
  | inr n ↦ ([], _, finished, stray (close_before n))
]

read_plain : (c : ℕ) (s : List ℕ) → is_brace c ≡ false → Reading s → Reading (c ∷ s)
read_plain c s n (items, t, spelled, end) = (_, t, plain n spelled, end)

pub reading : (s : List ℕ) → Reading s
reading [] = ([], [], finished, complete)
reading (c ∷ []) = elim (brace_cases c) [
  | inl e ↦ subst (λ x. Reading (x ∷ [])) (sym e) ([], _, finished, unterminated at_end)
  | inr (inl e) ↦ subst (λ x. Reading (x ∷ [])) (sym e) ([], _, finished, stray close_at_end)
  | inr (inr n) ↦ (_, [], plain n finished, complete)
]
reading (c ∷ d ∷ s) = elim (brace_cases c) [
  | inl e ↦ subst (λ x. Reading (x ∷ d ∷ s)) (sym e) (read_open d s (reading s))
  | inr (inl e) ↦ subst (λ x. Reading (x ∷ d ∷ s)) (sym e) (read_close d s (reading s))
  | inr (inr n) ↦ read_plain c (d ∷ s) n (reading (d ∷ s))
]
