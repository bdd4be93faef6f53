-- ===== src/CliParser/Stops.antt =====
-- Tokens that are wrong for `CliParser::parse`, by what is wrong with them, and those that ask for help.
use egl_utils_cpp.Prelude.{
  ℕ, ◌≡◌, ◌⊎◌, true, false, Option, none, some, List, [], ◌∷◌, ◌++◌, get_elem?, ◌==◌, codes,
}
use egl_utils_cpp.CliParser.Types.{
  ParseResult, OptionSpec, PositionalSpec, help_result, failure, unknown_option, missing_value,
  unexpected_value, invalid_value, unexpected_positional,
}
use egl_utils_cpp.CliParser.Register.{is_empty}
use egl_utils_cpp.CliParser.Parse.{Run, long_label, short_label}
use egl_utils_cpp.CliParser.Loop.{behind_dash}
use egl_utils_cpp.CliParser.Items.{
  Style, letters, spell_value, raise_all, HasNoEquals, IsAttachable, AreShortFlags,
}

-- What stands behind the name in the token of a long option.
abbrev pub spell_inline : Option (List ℕ) → List ℕ
spell_inline none = []
spell_inline (some v) = b'=' ∷ v

abbrev pub invalid_option : List ℕ → List ℕ → ParseResult
invalid_option value label =
    failure invalid_value
      (codes "invalid value '" ++ (value ++ (codes "' for option '" ++ (label ++ codes "'"))))

abbrev pub no_value : List ℕ → ParseResult
no_value label = failure missing_value (codes "option '" ++ (label ++ codes "' requires a value"))

module _ {S : Type 0} where
  -- No option has the name.
  abbrev pub NoLong : List ℕ → List (OptionSpec S) → Type 0
  NoLong name [] = Unit {0}
  NoLong name (o ∷ os) = ((o.long_name ≡ []) ⊎ (¬ (o.long_name ≡ name))) × NoLong name os

  abbrev pub NoShort : ℕ → List (OptionSpec S) → Type 0
  NoShort c [] = Unit {0}
  NoShort c (o ∷ os) = ((o.short_name ≡ 0) ⊎ (¬ (o.short_name ≡ c))) × NoShort c os

  -- The option at a place has a long name, or a short one, to be called by.
  pub record HasLong (os : List (OptionSpec S)) (i : ℕ) (o : OptionSpec S) : Type 0 where
    pub place : get_elem? os i ≡ some o
    pub long : is_empty o.long_name ≡ false
    pub plain : HasNoEquals o.long_name

  pub record HasShort (os : List (OptionSpec S)) (i : ℕ) (o : OptionSpec S) : Type 0 where
    pub place : get_elem? os i ≡ some o
    pub short : (o.short_name == 0) ≡ false
    pub plain : (o.short_name == b'-') ≡ false

  -- On a run, a token in front of others is wrong or asks for help: the result that this calls for, and
  -- the run as it is then, which is the same, but for the flags that stand in front of the wrong letter
  -- of a cluster.
  pub data Stops (os : List (OptionSpec S)) (r : Run S)
      : List ℕ → List (List ℕ) → ParseResult → Run S → Type 0 where
    -- `--name` or `--name=value`
    long_unknown :
        (name : List ℕ) (value : Option (List ℕ)) (tail : List (List ℕ))
        → HasNoEquals name
        → is_empty (name ++ spell_inline value) ≡ false
        → NoLong name os
        → Stops os r
            (long_label (name ++ spell_inline value))
            tail
            (failure unknown_option (codes "unknown option '--" ++ (name ++ codes "'")))
            r
    long_help :
        (i : ℕ) (o : OptionSpec S) (value : Option (List ℕ)) (tail : List (List ℕ))
        → HasLong os i o
        → o.is_help ≡ true
        → Stops os r (long_label (o.long_name ++ spell_inline value)) tail help_result r
    -- `--flag=value`
    long_flag_value :
        (i : ℕ) (o : OptionSpec S) (value : List ℕ) (tail : List (List ℕ))
        → HasLong os i o
        → o.is_help ≡ false
        → o.takes_value ≡ false
        → Stops os r
            (long_label (o.long_name ++ (b'=' ∷ value)))
            tail
            (failure unexpected_value
              (codes "flag '--" ++ (o.long_name ++ codes "' takes no value")))
            r
    -- `--name` at the end
    long_missing :
        (i : ℕ) (o : OptionSpec S)
        → HasLong os i o
        → o.is_help ≡ false
        → o.takes_value ≡ true
        → Stops os r (long_label o.long_name) [] (no_value (long_label o.long_name)) r
    -- `--name=value`
    long_invalid :
        (i : ℕ) (o : OptionSpec S) (value : List ℕ) (tail : List (List ℕ))
        → HasLong os i o
        → o.is_help ≡ false
        → o.takes_value ≡ true
        → o.assign value r.vars ≡ none
        → Stops os r
            (long_label (o.long_name ++ (b'=' ∷ value)))
            tail
            (invalid_option value (long_label o.long_name))
            r
    -- `--name value`
    long_invalid_next :
        (i : ℕ) (o : OptionSpec S) (value : List ℕ) (tail : List (List ℕ))
        → HasLong os i o
        → o.is_help ≡ false
        → o.takes_value ≡ true
        → o.assign value r.vars ≡ none
        → Stops os r
            (long_label o.long_name)
            (value ∷ tail)
            (invalid_option value (long_label o.long_name))
            r
    -- `-abX`, with more behind the unknown letter or not
    short_unknown :
        (is : List ℕ) (c : ℕ) (body : List ℕ) (tail : List (List ℕ)) (r' : Run S)
        → AreShortFlags os is
        → raise_all is r ≡ some r'
        → (c == b'-') ≡ false
        → NoShort c os
        → Stops os r
            (b'-' ∷ (letters os is ++ (c ∷ body)))
            tail
            (failure unknown_option (codes "unknown option '-" ++ (c ∷ codes "'")))
            r'
    short_help :
        (is : List ℕ) (i : ℕ) (o : OptionSpec S) (body : List ℕ) (tail : List (List ℕ)) (r' : Run S)
        → AreShortFlags os is
        → raise_all is r ≡ some r'
        → HasShort os i o
        → o.is_help ≡ true
        → Stops os r (b'-' ∷ (letters os is ++ (o.short_name ∷ body))) tail help_result r'
    -- `-abn` at the end
    short_missing :
        (is : List ℕ) (i : ℕ) (o : OptionSpec S) (r' : Run S)
        → AreShortFlags os is
        → raise_all is r ≡ some r'
        → HasShort os i o
        → o.is_help ≡ false
        → o.takes_value ≡ true
        → Stops os r
            (b'-' ∷ (letters os is ++ (o.short_name ∷ [])))
            []
            (no_value (short_label o.short_name))
            r'
    -- `-abnvalue`, `-abn=value`, or `-abn value`
    short_invalid :
        (is : List ℕ) (i : ℕ) (o : OptionSpec S) (style : Style) (value : List ℕ)
        (tail : List (List ℕ)) (r' : Run S)
        → AreShortFlags os is
        → raise_all is r ≡ some r'
        → HasShort os i o
        → o.is_help ≡ false
        → o.takes_value ≡ true
        → IsAttachable style value
        → o.assign value r'.vars ≡ none
        → Stops os r
            (b'-' ∷ (letters os is ++ (o.short_name ∷ (spell_value style value).0)))
            ((spell_value style value).1 ++ tail)
            (invalid_option value (short_label o.short_name))
            r'
    -- an argument behind the last one that is declared
    positional_extra :
        (token : List ℕ) (tail : List (List ℕ))
        → behind_dash token ≡ none
        → get_elem? r.positionals r.positional_index ≡ none
        → Stops os r token tail
            (failure unexpected_positional
              (codes "unexpected positional argument '" ++ (token ++ codes "'")))
            r
    positional_invalid :
        (token : List ℕ) (tail : List (List ℕ)) (s : PositionalSpec S)
        → behind_dash token ≡ none
        → get_elem? r.positionals r.positional_index ≡ some s
        → s.assign token r.vars ≡ none
        → Stops os r token tail
            (failure invalid_value (
              codes "invalid value '"
              ++ (token ++ (codes "' for argument '" ++ (s.name ++ codes "'")))))
            r
