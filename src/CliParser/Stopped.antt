-- ===== src/CliParser/Stopped.antt =====
-- One round of the loop of `CliParser::parse` on a token that ends it.
use egl_utils_cpp.Prelude.{
  ℕ, ◌≡◌, ◌⊎◌, refl, sym, ap, ◌∙◌, Bool, true, false, Option, none, some, List, [], ◌∷◌, ◌++◌,
  get_elem?, codes, inl, inr, arith, str_eq, str_eq→eq, Bool-cases, append-nil,
}
use egl_utils_cpp.CliParser.Types.{
  ParseResult, OptionSpec, help_result, failure, unknown_option, is_ok,
}
use egl_utils_cpp.CliParser.Register.{
  is_empty, has_long, has_short, find_long, find_short, find_option,
}
use egl_utils_cpp.CliParser.Parse.{Run, split_inline, parse_long, parse_short, assign_option}
use egl_utils_cpp.CliParser.Loop.{round}
use egl_utils_cpp.CliParser.Names.{AreNamed}
use egl_utils_cpp.CliParser.Same.{AreSame, IsSame, get_elem?-AreSame, find_option-AreSame}
use egl_utils_cpp.CliParser.Items.{HasNoEquals}
use egl_utils_cpp.CliParser.Longs.{split_inline-value, split_inline-plain}
use egl_utils_cpp.CliParser.Stops.{spell_inline, invalid_option, NoLong, NoShort, HasLong, HasShort}

pub split_inline-spell_inline :
    (name : List ℕ) (value : Option (List ℕ))
    → HasNoEquals name
    → split_inline (name ++ spell_inline value) ≡ (name, value)
split_inline-spell_inline name none h =
    ap split_inline (append-nil name) ∙ split_inline-plain name h
split_inline-spell_inline name (some v) h = split_inline-value name v h

pub is_empty-append : (s t : List ℕ) → is_empty s ≡ false → is_empty (s ++ t) ≡ false
is_empty-append [] t h = absurd (let e = h in cc)
is_empty-append (c ∷ s) t h = refl

module _ {S : Type 0} where
  -- The result of a round, which keeps what a run holds.
  pub record IsStopped (r : Run S) (token : List ℕ) (tail : List (List ℕ)) (result : ParseResult)
      (r' : Run S) : Type 0 where
    pub end : Run S
    pub ended : round false token (record r { rest = tail }) ≡ (false, (result, end))
    pub bad : is_ok result ≡ false
    pub options : end.options ≡ r'.options
    pub positionals : end.positionals ≡ r'.positionals
    pub vars : end.vars ≡ r'.vars

  has_long_other :
      (name : List ℕ) (o : OptionSpec S)
      → (o.long_name ≡ []) ⊎ (¬ (o.long_name ≡ name))
      → has_long name o ≡ false
  has_long_other name o (inl e) = rw e refl
  has_long_other name o (inr differs) = elim (Bool-cases (str_eq o.long_name name)) [
    | inl e ↦ absurd (differs (str_eq→eq o.long_name name e))
    | inr e ↦ ground arith
  ]

  find_long-NoLong :
      (name : List ℕ) (os : List (OptionSpec S)) → NoLong name os → find_long os name ≡ none
  unfolding find_option
  find_long-NoLong name [] h = refl
  find_long-NoLong name (o ∷ os) (h, more) =
      rw (find_option, has_long_other name o h, find_long-NoLong name os more) refl

  has_short_other :
      (c : ℕ) (o : OptionSpec S)
      → (o.short_name ≡ 0) ⊎ (¬ (o.short_name ≡ c))
      → has_short c o ≡ false
  has_short_other c o h = ground arith

  find_short-NoShort : (c : ℕ) (os : List (OptionSpec S)) → NoShort c os → find_short os c ≡ none
  unfolding find_option
  find_short-NoShort c [] h = refl
  find_short-NoShort c (o ∷ os) (h, more) =
      rw (find_option, has_short_other c o h, find_short-NoShort c os more) refl

  pub find_absent_long :
      (os os' : List (OptionSpec S)) (name : List ℕ)
      → AreSame os os'
      → NoLong name os
      → find_long os' name ≡ none
  find_absent_long os os' name same absent =
      find_option-AreSame (has_long name) os os' (λ a b s. ap (has_long name) s) same
      ∙ find_long-NoLong name os absent

  pub find_absent_short :
      (os os' : List (OptionSpec S)) (c : ℕ)
      → AreSame os os'
      → NoShort c os
      → find_short os' c ≡ none
  find_absent_short os os' c same absent =
      find_option-AreSame (has_short c) os os' (λ a b s. ap (has_short c) s) same
      ∙ find_short-NoShort c os absent

  -- An option of the parser in a run: only `seen` may have changed.
  pub record IsFound (r : Run S) (i : ℕ) (o : OptionSpec S) (found : Option ℕ) : Type 0 where
    pub seen : Bool
    pub place : get_elem? r.options i ≡ some (record o { seen = seen })
    pub by_name : found ≡ some i

  seen_eq : (o o' : OptionSpec S) → IsSame o o' → o' ≡ record o { seen = o'.seen }
  seen_eq o o' e =
      ap {A = OptionSpec S} {B = OptionSpec S} (λ x. record x { seen = o'.seen }) (sym e)

  pub parse_long_unknown :
      (r : Run S) (body name : List ℕ) (value : Option (List ℕ))
      → split_inline body ≡ (name, value)
      → find_long r.options name ≡ none
      → parse_long body r
        ≡ (failure unknown_option (codes "unknown option '--" ++ (name ++ codes "'")), r)
  unfolding parse_long
  parse_long_unknown r body name value b n = ground arith

  pub parse_short_unknown :
      (r : Run S) (c : ℕ) (body : List ℕ)
      → find_short r.options c ≡ none
      → parse_short (c ∷ body) r
        ≡ (failure unknown_option (codes "unknown option '-" ++ (c ∷ codes "'")), r)
  unfolding parse_short
  parse_short_unknown r c body n = ground arith

  pub parse_short_help :
      (r : Run S) (i c : ℕ) (body : List ℕ) (o : OptionSpec S)
      → find_short r.options c ≡ some i
      → get_elem? r.options i ≡ some o
      → o.is_help ≡ true
      → parse_short (c ∷ body) r ≡ (help_result, r)
  unfolding parse_short
  parse_short_help r i c body o n p h = ground arith

  pub assign_option_invalid :
      (i : ℕ) (o : OptionSpec S) (label v : List ℕ) (r : Run S)
      → o.assign v r.vars ≡ none
      → assign_option i o label v r ≡ (invalid_option v label, r)
  unfolding assign_option
  assign_option_invalid i o label v r h = rw (assign_option, h) refl

  module _ (os : List (OptionSpec S)) (names : AreNamed os) where
    pub long-IsFound :
        (r : Run S) (i : ℕ) (o : OptionSpec S)
        → HasLong os i o
        → AreSame os r.options
        → IsFound r i o (find_long r.options o.long_name)
    long-IsFound r i o w same =
        let (o', at, e) = get_elem?-AreSame os r.options i same w.place in
        let name = o.long_name in
        let found =
          find_option-AreSame (has_long name) os r.options (λ a b s. ap (has_long name) s) same in
        record {
          seen = o'.seen;
          place = at ∙ ap some (seen_eq o o' e);
          by_name = found ∙ (names i o w.place).by_long w.long;
        }

    pub short-IsFound :
        (r : Run S) (i : ℕ) (o : OptionSpec S)
        → HasShort os i o
        → AreSame os r.options
        → IsFound r i o (find_short r.options o.short_name)
    short-IsFound r i o w same =
        let (o', at, e) = get_elem?-AreSame os r.options i same w.place in
        let name = o.short_name in
        let found =
          find_option-AreSame (has_short name) os r.options (λ a b s. ap (has_short name) s) same in
        record {
          seen = o'.seen;
          place = at ∙ ap some (seen_eq o o' e);
          by_name = found ∙ (names i o w.place).by_short w.short;
        }
