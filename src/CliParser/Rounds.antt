-- ===== src/CliParser/Rounds.antt =====
-- One round of the loop of `CliParser::parse` on the tokens of an item.
use egl_utils_cpp.Prelude.{
  ℕ, suc, ◌+◌, ◌≡◌, refl, sym, ap, ◌∙◌, Bool, true, false, none, some, List, [], ◌∷◌, ◌++◌,
  get_elem?, ◌==◌, str_eq, Option-cases, inl, inr, arith, append-nil,
}
use egl_utils_cpp.CliParser.Types.{OptionSpec, success, is_ok}
use egl_utils_cpp.CliParser.Register.{is_empty}
use egl_utils_cpp.CliParser.Parse.{Run, see_positional, parse_long, parse_short, consume_positional}
use egl_utils_cpp.CliParser.Loop.{behind_dash, round, loop}
use egl_utils_cpp.CliParser.Names.{AreNamed}
use egl_utils_cpp.CliParser.Same.{AreSame}
use egl_utils_cpp.CliParser.Items.{
  Style, Item, long_flag, long_value, cluster, cluster_value, positional, long_of, short_of,
  letters, spell, spell_value, raise_all, give, place, perform, IsItem, IsLong, IsShort,
  AreShortFlags,
}
use egl_utils_cpp.CliParser.Clusters.{parse_short-raise_all, parse_short_given}
use egl_utils_cpp.CliParser.Longs.{parse_long_flag, parse_long_value, parse_long_next}

module _ {S : Type 0} where
  pub round_long :
      (body : List ℕ) (r : Run S)
      → is_empty body ≡ false
      → round false (b'-' ∷ b'-' ∷ body) r ≡ (false, parse_long body r)
  unfolding round str_eq
  round_long [] r h = absurd (let e = h in cc)
  round_long (c ∷ body) r h = refl

  pub round_short :
      (c : ℕ) (body : List ℕ) (r : Run S)
      → (c == b'-') ≡ false
      → round false (b'-' ∷ c ∷ body) r ≡ (false, parse_short (c ∷ body) r)
  unfolding round str_eq
  round_short c body r h = ground arith

  pub round_positional :
      (v : List ℕ) (r : Run S)
      → behind_dash v ≡ none
      → round false v r ≡ (false, consume_positional v r)
  unfolding round str_eq
  round_positional [] r h = refl
  round_positional (a ∷ []) r h = ground arith
  round_positional (a ∷ b ∷ v) r h = ground arith

  pub loop-round :
      (f : ℕ) (ended ended' : Bool) (token : List ℕ) (tail : List (List ℕ)) (r r' : Run S)
      → round ended token (record r { rest = tail }) ≡ (ended', (success, r'))
      → loop (suc f) ended (record r { rest = token ∷ tail }) ≡ loop f ended' r'
  unfolding loop
  loop-round f ended ended' token tail r r' h =
      ap (λ x. elim (is_ok x.1.0) [ true ↦ loop f x.0 x.1.1 | false ↦ x.1 ]) h

  pub consume_positional-place :
      (v : List ℕ) (r : Run S) (tail : List (List ℕ)) {r' : Run S}
      → place v r ≡ some r'
      → (consume_positional v (record r { rest = tail }) ≡ (success, record r' { rest = tail }))
        × (r'.options ≡ r.options)
  unfolding consume_positional place
  consume_positional-place v r tail {r'} h =
      elim (Option-cases (get_elem? r.positionals r.positional_index)) [
        | inl gone ↦ let f : none ≡ some r' = sym (rw (place, gone) refl) ∙ h in absurd (cc)
        | inr (s, at) ↦ elim (Option-cases (s.assign v r.vars)) [
          | inl refused ↦
              let f : none ≡ some r' = sym (rw (place, at, refused) refl) ∙ h in absurd (cc)
          | inr (vars, stored) ↦
              let after : Run S =
                see_positional r.positional_index s
                  (record r { positional_index = r.positional_index + 1; vars = vars }) in
              let f : some after ≡ some r' = sym (rw (place, at, stored) refl) ∙ h in
              let k : after ≡ r' = cc in rw (consume_positional, at, stored, ← k) (refl, refl)
        ]
      ]

  -- A positional argument in front of `--`, or behind it.
  pub loop_place :
      (f : ℕ) (ended : Bool) (v : List ℕ) (r : Run S) (tail : List (List ℕ)) {r' : Run S}
      → round ended v (record r { rest = tail })
        ≡ (ended, consume_positional v (record r { rest = tail }))
      → place v r ≡ some r'
      → loop (suc f) ended (record r { rest = v ∷ tail }) ≡ loop f ended (record r' { rest = tail })
  loop_place f ended v r tail {r'} e h =
      let (placed, kept) = consume_positional-place v r tail h in
      loop-round f ended ended v tail r (record r' { rest = tail })
        (e ∙ ap (λ x. (ended, x)) placed)

  -- The round of a long option, and of a cluster.
  loop_long :
      (f : ℕ) (body : List ℕ) (r r' : Run S) (tail : List (List ℕ))
      → is_empty body ≡ false
      → parse_long body (record r { rest = tail }) ≡ (success, r')
      → loop (suc f) false (record r { rest = (b'-' ∷ b'-' ∷ body) ∷ tail }) ≡ loop f false r'
  loop_long f body r r' tail h e =
      loop-round f false false (b'-' ∷ b'-' ∷ body) tail r r'
        (round_long body (record r { rest = tail }) h ∙ ap (λ x. (false, x)) e)

  loop_short :
      (f c : ℕ) (body : List ℕ) (r r' : Run S) (tail : List (List ℕ))
      → (c == b'-') ≡ false
      → parse_short (c ∷ body) (record r { rest = tail }) ≡ (success, r')
      → loop (suc f) false (record r { rest = (b'-' ∷ c ∷ body) ∷ tail }) ≡ loop f false r'
  loop_short f c body r r' tail h e =
      loop-round f false false (b'-' ∷ c ∷ body) tail r r'
        (round_short c body (record r { rest = tail }) h ∙ ap (λ x. (false, x)) e)

  module _ (os : List (OptionSpec S)) (names : AreNamed os) where
    named : {b : Bool} (i : ℕ) → IsLong os b i → is_empty (long_of (get_elem? os i)) ≡ false
    named i w = rw w.place w.long

    pub lettered : {b : Bool} (i : ℕ) → IsShort os b i → (short_of (get_elem? os i) == b'-') ≡ false
    lettered i w = rw w.place w.plain

    filled : (s v : List ℕ) (c : ℕ) → is_empty (s ++ (c ∷ v)) ≡ false
    filled [] v c = refl
    filled (a ∷ s) v c = refl

    -- A cluster is never mistaken for a long option, whichever letter it starts with.
    loop_cluster :
        (js : List ℕ)
        → AreShortFlags os js
        → (f c : ℕ) (body : List ℕ) (r r' : Run S) (tail : List (List ℕ)) → (c == b'-') ≡ false
        → parse_short (letters os js ++ (c ∷ body)) (record r { rest = tail }) ≡ (success, r')
        → loop (suc f) false (record r { rest = (b'-' ∷ (letters os js ++ (c ∷ body))) ∷ tail })
          ≡ loop f false r'
    loop_cluster [] flags f c body r r' tail h e = loop_short f c body r r' tail h e
    loop_cluster (j ∷ js) (w, flags) f c body r r' tail h e =
        loop_short f _ _ r r' tail (lettered j w) e

    cluster_value_lem :
        (is : List ℕ) (i : ℕ) (style : Style) (v : List ℕ) (f : ℕ) (r : Run S)
        (tail : List (List ℕ)) {r1 r' : Run S}
        → IsItem os (cluster_value is i style v)
        → AreSame os r.options
        → raise_all is r ≡ some r1
        → give i v r1 ≡ some r'
        → (loop (suc f) false (record r { rest = spell os (cluster_value is i style v) ++ tail })
            ≡ loop f false (record r' { rest = tail }))
          × AreSame os r'.options
    cluster_value_lem is i style v f r tail {r1} {r'} (flags, last, ok) same raised given =
        let more = (spell_value style v).1 ++ tail in
        let end = short_of (get_elem? os i) ∷ (spell_value style v).0 in
        let (raised, kept) = parse_short-raise_all os names is end r more flags same raised in
        let (parsed, kept) = parse_short_given os names style i v r1 tail last ok kept given in
        (loop_cluster is flags f _ _ r _ more (lettered i last) (raised ∙ parsed), kept)

    -- The loop does with the tokens of an item what the item means.
    pub loop-spell :
        (x : Item) (f : ℕ) (r : Run S) (tail : List (List ℕ)) {r' : Run S}
        → IsItem os x
        → AreSame os r.options
        → perform x r ≡ some r'
        → (loop (suc f) false (record r { rest = spell os x ++ tail })
            ≡ loop f false (record r' { rest = tail }))
          × AreSame os r'.options
    unfolding perform parse_short
    loop-spell (long_flag i) f r tail {r'} w same e =
        let (parsed, kept) = parse_long_flag os names i r tail w same e in
        (loop_long f _ r _ tail (named i w) parsed, kept)
    loop-spell (long_value i true v) f r tail {r'} w same e =
        let (parsed, kept) = parse_long_value os names i v r tail w same e in
        (loop_long f _ r _ tail (filled (long_of (get_elem? os i)) v b'=') parsed, kept)
    loop-spell (long_value i false v) f r tail {r'} w same e =
        let (parsed, kept) = parse_long_next os names i v r tail w same e in
        (loop_long f _ r _ (v ∷ tail) (named i w) parsed, kept)
    loop-spell (cluster i is) f r tail {r'} w same e =
        let (parsed, kept) = parse_short-raise_all os names (i ∷ is) [] r tail w same e in
        let whole =
          ap (λ s. parse_short s (record r { rest = tail }))
            (sym (append-nil (letters os (i ∷ is)))) in
        (loop_short f _ _ r _ tail (lettered i w.0) (whole ∙ parsed), kept)
    loop-spell (cluster_value is i style v) f r tail {r'} w same e =
        elim (Option-cases (raise_all is r)) [
          | inl stuck ↦ let g : none ≡ some r' = sym (rw (perform, stuck) refl) ∙ e in absurd (cc)
          | inr (r1, raised) ↦
              let given : give i v r1 ≡ some r' = sym (rw (perform, raised) refl) ∙ e in
              cluster_value_lem is i style v f r tail w same raised given
        ]
    loop-spell (positional v) f r tail {r'} w same e =
        let (placed, kept) = consume_positional-place v r tail e in
        (
          loop_place f false v r tail (round_positional v (record r { rest = tail }) w) e,
          rw kept same,
        )
