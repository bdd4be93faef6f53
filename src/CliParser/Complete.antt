-- ===== src/CliParser/Complete.antt =====
-- Whole command lines: `parse` gives what the items of the line mean.
use egl_utils_cpp.Prelude.{
  ℕ, zero, suc, ◌-◌, ◌≤◌, ◌≡◌, refl, sym, ap, ◌∙◌, Bool, true, false, Option, none, some, List, [],
  ◌∷◌, ◌++◌, length, codes, str_eq, Option-cases, inl, inr, arith, append_assoc,
}
use egl_utils_cpp.CliParser.Types.{ParseResult, OptionSpec, CliParser, is_ok}
use egl_utils_cpp.CliParser.Parse.{Run, Outcome, check_required}
use egl_utils_cpp.CliParser.Loop.{round, loop, begin, parse}
use egl_utils_cpp.CliParser.Names.{AreNamed}
use egl_utils_cpp.CliParser.Valid.{IsValid}
use egl_utils_cpp.CliParser.Same.{AreSame, unseen_options-AreSame}
use egl_utils_cpp.CliParser.Items.{
  Item, long_flag, long_value, cluster, cluster_value, positional, attached, inline, next, spell,
  spell_all, place, place_all, perform, perform_all, AreItems,
}
use egl_utils_cpp.CliParser.Stops.{Stops}
use egl_utils_cpp.CliParser.StopRounds.{Stops-IsStopped}
use egl_utils_cpp.CliParser.Rounds.{loop-round, loop_place, loop-spell}

-- The items in front of `--`, and the tokens behind it, if it is there.
pub record CommandLine : Type 0 where
  pub items : List Item
  pub behind : Option (List (List ℕ))

abbrev ending : Option (List (List ℕ)) → List (List ℕ)
ending none = []
ending (some vs) = codes "--" ∷ vs

module _ {S : Type 0} where
  abbrev pub spell_line : List (OptionSpec S) → CommandLine → List (List ℕ)
  spell_line os line = spell_all os line.items ++ ending line.behind

  abbrev perform_rest : Option (List (List ℕ)) → Run S → Option (Run S)
  perform_rest none r = some r
  perform_rest (some vs) r = place_all vs r

  -- The meaning of a line: that of its items in order, then that of the tokens behind `--`.
  unfoldable pub perform_line : CommandLine → Run S → Option (Run S)
  perform_line line r = elim (perform_all line.items r) [
    | none ↦ none
    | some r' ↦ perform_rest line.behind r'
  ]

  abbrev outcome_of : Run S → Outcome S
  outcome_of r = (check_required r, r)

  loop_done :
      (f : ℕ) (ended : Bool) (r : Run S)
      → loop f ended (record r { rest = [] }) ≡ outcome_of (record r { rest = [] })
  unfolding loop
  loop_done zero ended r = refl
  loop_done (suc f) ended r = refl

  loop-place_all :
      (vs : List (List ℕ)) (f : ℕ) (r : Run S) {r' : Run S}
      → length vs ≤ f
      → place_all vs r ≡ some r'
      → loop f true (record r { rest = vs }) ≡ outcome_of (record r' { rest = [] })
  unfolding place_all round
  loop-place_all [] f r {r'} enough h = let k : r ≡ r' = cc in rw (← k) (loop_done f true r)
  loop-place_all (v ∷ vs) zero r enough h = absurd (omega arith)
  loop-place_all (v ∷ vs) (suc f) r {r'} enough h = elim (Option-cases (place v r)) [
    | inl stuck ↦ let g : none ≡ some r' = sym (rw (place_all, stuck) refl) ∙ h in absurd (cc)
    | inr (r1, placed) ↦
        let more : place_all vs r1 ≡ some r' = sym (rw (place_all, placed) refl) ∙ h in
        loop_place f true v r vs refl placed ∙ loop-place_all vs f r1 (omega arith) more
  ]

  loop-ending :
      (behind : Option (List (List ℕ))) (f : ℕ) (r : Run S) {r' : Run S}
      → length (ending behind) ≤ f
      → perform_rest behind r ≡ some r'
      → loop f false (record r { rest = ending behind }) ≡ outcome_of (record r' { rest = [] })
  unfolding round str_eq
  loop-ending none f r {r'} enough h = let k : r ≡ r' = cc in rw (← k) (loop_done f false r)
  loop-ending (some vs) zero r enough h = absurd (omega arith)
  loop-ending (some vs) (suc f) r enough h =
      loop-round f false true (codes "--") vs r (record r { rest = vs }) refl
      ∙ loop-place_all vs f r (omega arith) h

  -- An item is spelled by one token or two.
  spell_fuel :
      (os : List (OptionSpec S)) (x : Item) (tail : List (List ℕ)) (f : ℕ)
      → length (spell os x ++ tail) ≤ f
      → (f' : ℕ) × (f ≡ suc f') × (length tail ≤ f')
  spell_fuel os (long_flag i) tail f h = (f - 1, omega arith, omega arith)
  spell_fuel os (long_value i true v) tail f h = (f - 1, omega arith, omega arith)
  spell_fuel os (long_value i false v) tail f h = (f - 1, omega arith, omega arith)
  spell_fuel os (cluster i is) tail f h = (f - 1, omega arith, omega arith)
  spell_fuel os (cluster_value is i attached v) tail f h = (f - 1, omega arith, omega arith)
  spell_fuel os (cluster_value is i inline v) tail f h = (f - 1, omega arith, omega arith)
  spell_fuel os (cluster_value is i next v) tail f h = (f - 1, omega arith, omega arith)
  spell_fuel os (positional v) tail f h = (f - 1, omega arith, omega arith)

  module _ (os : List (OptionSpec S)) (names : AreNamed os) where
    -- The rounds of the items, and the fuel that they leave.
    loop-spell_all :
        (xs : List Item) (tail : List (List ℕ)) (f : ℕ) (r : Run S) {r' : Run S}
        → AreItems os xs
        → AreSame os r.options
        → length (spell_all os xs ++ tail) ≤ f
        → perform_all xs r ≡ some r'
        → (f' : ℕ) × (length tail ≤ f')
          × (loop f false (record r { rest = spell_all os xs ++ tail })
              ≡ loop f' false (record r' { rest = tail }))
          × AreSame os r'.options
    unfolding perform_all
    loop-spell_all [] tail f r {r'} ok same enough h =
        let k : r ≡ r' = cc in rw (← k) (f, enough, refl, same)
    loop-spell_all (x ∷ xs) tail f r {r'} (w, ok) same enough h =
        elim (Option-cases (perform x r)) [
          | inl stuck ↦
              let g : none ≡ some r' = sym (rw (perform_all, stuck) refl) ∙ h in absurd (cc)
          | inr (r1, done) ↦
              let more : perform_all xs r1 ≡ some r' = sym (rw (perform_all, done) refl) ∙ h in
              let behind = spell_all os xs ++ tail in
              let regroup = append_assoc (spell os x) (spell_all os xs) tail in
              let fits : length (spell os x ++ behind) ≤ f = rw (← regroup) enough in
              let (f1, e, rest_fits) = spell_fuel os x behind f fits in
              let (first, kept) = loop-spell os names x f1 r behind w same done in
              let (f', left, rest, still) = loop-spell_all xs tail f1 r1 ok kept rest_fits more in
              (
                f',
                left,
                ap (λ t. loop f false (record r { rest = t })) regroup
                    ∙ ap (λ g. loop g false (record r { rest = spell os x ++ behind })) e
                    ∙ first
                    ∙ rest,
                still,
              )
        ]

  loop_failed :
      (f : ℕ) (ended ended' : Bool) (token : List ℕ) (tail : List (List ℕ)) (r r' : Run S)
      (result : ParseResult)
      → suc (length tail) ≤ f
      → round ended token (record r { rest = tail }) ≡ (ended', (result, r'))
      → is_ok result ≡ false
      → loop f ended (record r { rest = token ∷ tail }) ≡ (result, r')
  unfolding loop
  loop_failed zero ended ended' token tail r r' result enough e bad = absurd (omega arith)
  loop_failed (suc f) ended ended' token tail r r' result enough e bad =
      ap (λ x. elim (is_ok x.1.0) [ true ↦ loop f x.0 x.1.1 | false ↦ x.1 ]) e ∙ rw bad refl

  abbrev answer : CliParser S → Outcome S → ParseResult × CliParser S × S
  answer p x = (x.0, record p { options = x.1.options; positionals = x.1.positionals }, x.1.vars)

  kept_answer :
      (p : CliParser S) (result : ParseResult) (end r' : Run S)
      → end.options ≡ r'.options
      → end.positionals ≡ r'.positionals
      → end.vars ≡ r'.vars
      → answer p (result, end) ≡ answer p (result, r')
  kept_answer p result end r' e f g = rw (e, f, g) refl

  -- A command line that spells flags, options with values that convert, and positional arguments in
  -- any order, clusters and all three ways to write a value included, and then possibly `--` and
  -- more arguments, leaves the variables and the marks on a parser without ambiguous names as
  -- storing the values one after the other does; the result is that of the check for what is
  -- required.
  pub parse-spell_line :
      (p : CliParser S) (vars : S) (line : CommandLine) {r : Run S}
      → IsValid p
      → AreItems p.options line.items
      → perform_line line (begin p vars []) ≡ some r
      → parse p vars (spell_line p.options line)
        ≡ (check_required r, record p { options = r.options; positionals = r.positionals }, r.vars)
  unfolding parse begin check_required perform_line
  parse-spell_line p vars line {r} valid ok h =
      elim (Option-cases (perform_all line.items (begin p vars []))) [
        | inl stuck ↦ let g : none ≡ some r = sym (rw (perform_line, stuck) refl) ∙ h in absurd (cc)
        | inr (r1, done) ↦
            let last : perform_rest line.behind r1 ≡ some r =
              sym (rw (perform_line, done) refl) ∙ h in
            let args = spell_line p.options line in
            let (f, left, run, _) =
              loop-spell_all p.options valid.names line.items (ending line.behind) (length args)
                (begin p vars []) ok (unseen_options-AreSame p.options) (omega arith) done in
            ap (answer p) (run ∙ loop-ending line.behind f r1 left last)
      ]

  -- On a parser without ambiguous names, behind items that all perform and in front of any `--`: a
  -- token that is wrong in one of these ways ends the parse with its error and the exact message: an
  -- unknown long name or letter, a value for a flag, a value that is missing at the end, a value that
  -- does not convert (behind `=`, attached, or as the next token), an argument too many, or one that
  -- does not convert; and the help option, by either name, ends it with the help result. Where the
  -- letter stands in a cluster, flags may stand in front of it. A name holds no `=`, and no letter
  -- is a `-`. The
  -- variables and the marks are those behind the items, with the flags in front of the letter raised;
  -- the tokens behind do nothing.
  pub parse-stop :
      (p : CliParser S) (vars : S) (xs : List Item) (token : List ℕ) (tail : List (List ℕ))
      {r r' : Run S} {result : ParseResult}
      → IsValid p
      → AreItems p.options xs
      → perform_all xs (begin p vars []) ≡ some r
      → Stops p.options r token tail result r'
      → parse p vars (spell_all p.options xs ++ (token ∷ tail))
        ≡ (result, record p { options = r'.options; positionals = r'.positionals }, r'.vars)
  unfolding parse begin
  parse-stop p vars xs token tail {r} {r'} {result} valid ok done stop =
      let args = spell_all p.options xs ++ (token ∷ tail) in
      let (f, left, run, same) =
        loop-spell_all p.options valid.names xs (token ∷ tail) (length args) (begin p vars []) ok
          (unseen_options-AreSame p.options) (omega arith) done in
      let w = Stops-IsStopped p.options valid.names r r' token tail result same stop in
      ap (answer p) (run ∙ loop_failed f false false token tail r w.end result left w.ended w.bad)
      ∙ kept_answer p result w.end r' w.options w.positionals w.vars
