-- ===== src/StringFormatter/Render.antt =====
-- string_formatter.hpp: what `format` writes for a format string that `check_format_string`
-- accepts.
use egl_utils_cpp.Prelude.{
  ℕ, suc, ◌≡◌, refl, sym, ◌∙◌, ap, subst, Bool, true, false, Option, none, some, List, [], ◌∷◌,
  ◌++◌, append-nil, append_assoc, length, Option-cases, codes, inl, inr, if◌then◌else◌, le→leb,
  arith,
}
use egl_utils_cpp.StringBuilder.{StringBuilder, seeded, append_integer, view}
use egl_utils_cpp.StringBuilder.Decimal.{integer}
use egl_utils_cpp.StringBuilder.Width.{length-integer}
use egl_utils_cpp.StringFormatter.{
  is_brace, Argument, boolean, character, number, floating, text, advance_from,
  advance_to_placeholder, append_float, append_value, append_segment, format_rest, format_to,
  format,
}
use egl_utils_cpp.StringFormatter.Check.{FormatStringError, check_format_string}
use egl_utils_cpp.StringFormatter.Checked.{check_format_string_iff}
use egl_utils_cpp.StringFormatter.Grammar.{
  Item, literal, placeholder, Spells, finished, plain, doubled_open, doubled_close, open_close,
  placeholders, rendered,
}

-- What `advance_to_placeholder` does where `out` is written and `items` are ahead.
abbrev Advances : List ℕ → List Item → Option (Bool × StringBuilder × List ℕ) → Type 0
Advances out [] r = r ≡ some (false, seeded out, [])
Advances out (literal c ∷ items) r = Advances (out ++ (c ∷ [])) items r
Advances out (placeholder ∷ items) r =
    (rest : List ℕ) × Spells [] rest items × (r ≡ some (true, seeded out, rest))

advance_from-plain :
    (out run s : List ℕ) (c : ℕ)
    → is_brace c ≡ false
    → advance_from (seeded out) run (c ∷ s) ≡ advance_from (seeded out) (run ++ (c ∷ [])) s
unfolding advance_from is_brace
advance_from-plain out run [] c h = ground arith
advance_from-plain out run (d ∷ s) c h = ground arith

advance_from-Advances :
    (out run : List ℕ) {s : List ℕ} {items : List Item}
    → Spells [] s items
    → Advances (out ++ run) items (advance_from (seeded out) run s)
unfolding advance_from is_brace
advance_from-Advances out run finished = refl
advance_from-Advances out run (plain {c} {s} {items} h d) =
    subst (λ r. Advances ((out ++ run) ++ (c ∷ [])) items r)
      (sym (advance_from-plain out run s c h))
      (subst (λ o. Advances o items (advance_from (seeded out) (run ++ (c ∷ [])) s))
        (sym (append_assoc out run (c ∷ []))) (advance_from-Advances out (run ++ (c ∷ [])) d))
advance_from-Advances out run (doubled_open {s} {items} d) =
    subst (λ o. Advances o items (advance_from (seeded ((out ++ run) ++ (b'{' ∷ []))) [] s))
      (append-nil _) (advance_from-Advances ((out ++ run) ++ (b'{' ∷ [])) [] d)
advance_from-Advances out run (doubled_close {s} {items} d) =
    subst (λ o. Advances o items (advance_from (seeded ((out ++ run) ++ (b'}' ∷ []))) [] s))
      (append-nil _) (advance_from-Advances ((out ++ run) ++ (b'}' ∷ [])) [] d)
advance_from-Advances out run (open_close {s} d) = (s, d, refl)

advance-Advances :
    (out : List ℕ) {s : List ℕ} {items : List Item}
    → Spells [] s items
    → Advances out items (advance_to_placeholder (seeded out) s)
unfolding advance_to_placeholder
advance-Advances out {s} {items} d =
    subst (λ o. Advances o items (advance_from (seeded out) [] s)) (append-nil out)
      (advance_from-Advances out [] d)

-- With no placeholder ahead the rest is literal; with one, the literals in front of it are `front`.
Advances-last :
    (out : List ℕ) (items : List Item) (r : Option (Bool × StringBuilder × List ℕ))
    → Advances out items r
    → placeholders items ≡ 0
    → r ≡ some (false, seeded (out ++ rendered items []), [])
unfolding placeholders rendered
Advances-last out [] r a e = a ∙ ap (λ o. some (false, seeded o, [])) (sym (append-nil out))
Advances-last out (literal c ∷ items) r a e =
    Advances-last (out ++ (c ∷ [])) items r a e
    ∙ ap (λ o. some (false, seeded o, [])) (append_assoc out (c ∷ []) (rendered items []))
Advances-last out (placeholder ∷ items) r a e = absurd (omega arith)

record IsSegment (out : List ℕ) (items : List Item) (r : Option (Bool × StringBuilder × List ℕ))
    : Type 0 where
  front : List ℕ
  later : List Item
  rest : List ℕ
  spelled : Spells [] rest later
  fewer : placeholders items ≡ suc (placeholders later)
  result : r ≡ some (true, seeded (out ++ front), rest)
  rendered_eq :
      (t : List ℕ) (ts : List (List ℕ))
      → rendered items (t ∷ ts) ≡ front ++ (t ++ rendered later ts)

IsSegment-cons :
    (out : List ℕ) (c : ℕ) (items : List Item) (r : Option (Bool × StringBuilder × List ℕ))
    → IsSegment (out ++ (c ∷ [])) items r
    → IsSegment out (literal c ∷ items) r
unfolding placeholders rendered
IsSegment-cons out c items r g = record {
  front = c ∷ g.front;
  later = g.later;
  rest = g.rest;
  spelled = g.spelled;
  fewer = g.fewer;
  result = g.result ∙ ap (λ o. some (true, seeded o, g.rest)) (append_assoc out (c ∷ []) g.front);
  rendered_eq = λ t ts. ap (λ l. c ∷ l) (g.rendered_eq t ts);
}

Advances-IsSegment :
    (out : List ℕ) (items : List Item) (k : ℕ) (r : Option (Bool × StringBuilder × List ℕ))
    → Advances out items r
    → placeholders items ≡ suc k
    → IsSegment out items r
unfolding placeholders rendered
Advances-IsSegment out [] k r a e = absurd (omega arith)
Advances-IsSegment out (literal c ∷ items) k r a e =
    IsSegment-cons out c items r (Advances-IsSegment (out ++ (c ∷ [])) items k r a e)
Advances-IsSegment out (placeholder ∷ items) k r (rest, d, e) _ = record {
  front = [];
  later = items;
  rest = rest;
  spelled = d;
  fewer = refl;
  result = e ∙ ap (λ o. some (true, seeded o, rest)) (sym (append-nil out));
  rendered_eq = λ t ts. refl;
}

module _ {F : Type 0} (to_chars : ℕ → F → Option (List ℕ)) where
  -- The text of an argument.
  unfoldable pub text_of : Argument F → List ℕ
  text_of (boolean value) = if value then codes "true" else codes "false"
  text_of (character value) = value ∷ []
  text_of (number value) = integer value
  text_of (floating value) = elim (to_chars 32 value) [ none ↦ [] | some digits ↦ digits ]
  text_of (text value) = value

  unfoldable pub texts_of : List (Argument F) → List (List ℕ)
  unfolding text_of
  texts_of [] = []
  texts_of (a ∷ args) = text_of a ∷ texts_of args

  append_value-text_of :
      (out : List ℕ) (a : Argument F)
      → append_value to_chars (seeded out) a ≡ seeded (out ++ text_of a)
  unfolding append_value append_integer append_float text_of
  append_value-text_of out (boolean value) = refl
  append_value-text_of out (character value) = refl
  append_value-text_of out (number value) =
      rw (le→leb (length (integer value)) 24 (omega (arith, length-integer value))) refl
  append_value-text_of out (floating value) = elim (Option-cases (to_chars 32 value)) [
    | inl e ↦ rw (text_of, append_float, e) (ap seeded (sym (append-nil out)))
    | inr (digits, e) ↦ rw (text_of, append_float, e) refl
  ]
  append_value-text_of out (text value) = refl

  format_rest-last :
      (out s : List ℕ) (found : Bool) (b : StringBuilder) (rest : List ℕ)
      → advance_to_placeholder (seeded out) s ≡ some (found, b, rest)
      → format_rest to_chars (seeded out) s [] ≡ some b
  unfolding format_rest
  format_rest-last out s found b rest e =
      ap (λ r. elim r [ none ↦ none | some (found', out', rest') ↦ some out' ]) e

  format_rest-next :
      (out s front rest : List ℕ) (a : Argument F) (args : List (Argument F))
      → advance_to_placeholder (seeded out) s ≡ some (true, seeded (out ++ front), rest)
      → format_rest to_chars (seeded out) s (a ∷ args)
        ≡ format_rest to_chars (seeded ((out ++ front) ++ text_of a)) rest args
  unfolding format_rest append_segment
  format_rest-next out s front rest a args e =
      let segment : append_segment to_chars (seeded out) s a
          ≡ some (seeded ((out ++ front) ++ text_of a), rest) =
        rw (append_segment, e) (ap (λ b. some (b, rest)) (append_value-text_of (out ++ front) a)) in
      ap (λ r. elim r [ none ↦ none | some (out', rest') ↦ format_rest to_chars out' rest' args ])
        segment

  -- From any text written so far: the literals and the texts of the arguments follow it.
  format_rest-Spells :
      (out s : List ℕ) (items : List Item) (args : List (Argument F))
      → Spells [] s items
      → placeholders items ≡ length args
      → format_rest to_chars (seeded out) s args
        ≡ some (seeded (out ++ rendered items (texts_of args)))
  unfolding texts_of
  format_rest-Spells out s items [] d e =
      format_rest-last out s _ _ _ (Advances-last out items _ (advance-Advances out d) e)
  format_rest-Spells out s items (a ∷ args) d e =
      let g = Advances-IsSegment out items (length args) _ (advance-Advances out d) e in
      let written = (out ++ g.front) ++ text_of a in
      format_rest-next out s g.front g.rest a args g.result
      ∙ format_rest-Spells written g.rest g.later args g.spelled (omega (arith, g.fewer))
      ∙ ap (λ t. some (seeded t))
          (grind (arith, append_assoc, g.rendered_eq (text_of a) (texts_of args)))

  -- A format string that is accepted for as many arguments as it is given never makes `format` read
  -- past its end: the string is spelled by items, and `format` returns its literal bytes with the
  -- texts of the arguments, in order, in place of the placeholders; `format_to` appends the same to
  -- what its builder holds. A floating-point value that `to_chars` cannot write has an empty text.
  pub format_renders :
      (fmt : List ℕ) (args : List (Argument F)) (out : List ℕ)
      → check_format_string fmt (length args) ≡ FormatStringError.none
      → (items : List Item) × Spells [] fmt items
        × (format to_chars fmt args ≡ some (rendered items (texts_of args)))
        × (format_to to_chars (seeded out) fmt args
            ≡ some (seeded (out ++ rendered items (texts_of args))))
  unfolding format format_to
  format_renders fmt args out h =
      let (items, d, e) = (check_format_string_iff FormatStringError.none fmt (length args)).0 h in
      (
        items,
        d,
        ap (λ r. elim r [ none ↦ none | some b ↦ some (view b) ])
            (format_rest-Spells [] fmt items args d e),
        format_rest-Spells out fmt items args d e,
      )
