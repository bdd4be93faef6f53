-- ===== src/CliParser/Required.antt =====
-- `CliParser::check_required`.
use egl_utils_cpp.Prelude.{
  ℕ, zero, suc, ◌≡◌, refl, sym, ap, ◌∙◌, true, some, List, [], ◌∷◌, ◌↔◌, get_elem?, arith,
}
use egl_utils_cpp.CliParser.Types.{ParseResult, success, is_ok, OptionSpec, PositionalSpec}
use egl_utils_cpp.CliParser.Parse.{Run, check_options, check_positionals, check_required}

module _ {S : Type 0} where
  abbrev pub OptionsSeen : List (OptionSpec S) → Type 0
  OptionsSeen os =
      (i : ℕ) (o : OptionSpec S) → get_elem? os i ≡ some o → o.required ≡ true → o.seen ≡ true

  abbrev pub PositionalsSeen : List (PositionalSpec S) → Type 0
  PositionalsSeen ss =
      (i : ℕ) (s : PositionalSpec S) → get_elem? ss i ≡ some s → s.required ≡ true → s.seen ≡ true

  OptionsSeen-cons :
      (o : OptionSpec S) (os : List (OptionSpec S))
      → (o.required ≡ true → o.seen ≡ true)
      → OptionsSeen os
      → OptionsSeen (o ∷ os)
  OptionsSeen-cons o os first more zero p e r =
      let same : o ≡ p = cc in ap (λ q. q.seen) (sym same) ∙ first (ap (λ q. q.required) same ∙ r)
  OptionsSeen-cons o os first more (suc i) p e r = more i p e r

  check_options_seen :
      (os : List (OptionSpec S)) (next : ParseResult)
      → is_ok (check_options os next) ≡ true
      → OptionsSeen os × (is_ok next ≡ true)
  unfolding check_options
  check_options_seen [] next h = (λ i o e. absurd (cc), h)
  check_options_seen (o ∷ os) next h =
      let (more, ok) = check_options_seen os next (ground arith) in
      let first : o.required ≡ true → o.seen ≡ true = λ r. ground arith in
      (OptionsSeen-cons o os first more, ok)

  seen_check_options :
      (os : List (OptionSpec S)) (next : ParseResult)
      → OptionsSeen os
      → check_options os next ≡ next
  unfolding check_options
  seen_check_options [] next h = refl
  seen_check_options (o ∷ os) next h =
      let first = h 0 o refl in
      let more = seen_check_options os next (λ i p e. h (suc i) p e) in ground arith

  PositionalsSeen-cons :
      (s : PositionalSpec S) (ss : List (PositionalSpec S))
      → (s.required ≡ true → s.seen ≡ true)
      → PositionalsSeen ss
      → PositionalsSeen (s ∷ ss)
  PositionalsSeen-cons s ss first more zero p e r =
      let same : s ≡ p = cc in ap (λ q. q.seen) (sym same) ∙ first (ap (λ q. q.required) same ∙ r)
  PositionalsSeen-cons s ss first more (suc i) p e r = more i p e r

  check_positionals_seen :
      (ss : List (PositionalSpec S)) → is_ok (check_positionals ss) ≡ true → PositionalsSeen ss
  unfolding check_positionals
  check_positionals_seen [] h = λ i s e. absurd (cc)
  check_positionals_seen (s ∷ ss) h =
      let more = check_positionals_seen ss (ground arith) in
      let first : s.required ≡ true → s.seen ≡ true = λ r. ground arith in
      PositionalsSeen-cons s ss first more

  seen_check_positionals :
      (ss : List (PositionalSpec S)) → PositionalsSeen ss → check_positionals ss ≡ success
  unfolding check_positionals
  seen_check_positionals [] h = refl
  seen_check_positionals (s ∷ ss) h =
      let first = h 0 s refl in
      let more = seen_check_positionals ss (λ i p e. h (suc i) p e) in ground arith

  -- The check at the end succeeds exactly if every required option and every required positional
  -- argument of the run is seen.
  pub check_required_iff :
      (r : Run S)
      → (is_ok (check_required r) ≡ true) ↔ (OptionsSeen r.options × PositionalsSeen r.positionals)
  unfolding check_required
  check_required_iff r = (
    λ ok.
        let (options, rest) = check_options_seen r.options (check_positionals r.positionals) ok in
        (options, check_positionals_seen r.positionals rest),
    λ (options, positionals). ap is_ok (
        seen_check_options r.options (check_positionals r.positionals) options
        ∙ seen_check_positionals r.positionals positionals),
  )
