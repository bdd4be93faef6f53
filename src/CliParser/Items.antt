-- ===== src/CliParser/Items.antt =====
-- A command line as a list of items, the tokens that spell it, and what the items mean.
use egl_utils_cpp.Prelude.{
  ℕ, ◌+◌, ◌≡◌, Bool, true, false, Option, none, some, List, [], ◌∷◌, ◌++◌, get_elem?, ◌==◌,
}
use egl_utils_cpp.CliParser.Types.{OptionSpec}
use egl_utils_cpp.CliParser.Register.{is_empty}
use egl_utils_cpp.CliParser.Parse.{Run, long_label, see_option, see_positional, raise_flag}
use egl_utils_cpp.CliParser.Loop.{behind_dash}

-- `-nvalue`, `-n=value`, or `-n value`.
pub data Style : Type 0 where
  attached inline next : Style

-- An option is named by its place.
pub data Item : Type 0 where
  -- `--name`
  long_flag : ℕ → Item
  -- `--name=value`, or `--name value`
  long_value : ℕ → Bool → List ℕ → Item
  -- `-abc`
  cluster : ℕ → List ℕ → Item
  -- `-abcn`, and the value
  cluster_value : List ℕ → ℕ → Style → List ℕ → Item
  positional : List ℕ → Item

abbrev pub spell_value : Style → List ℕ → List ℕ × List (List ℕ)
spell_value attached v = (v, [])
spell_value inline v = (b'=' ∷ v, [])
spell_value next v = ([], v ∷ [])

module _ {S : Type 0} where
  abbrev pub long_of : Option (OptionSpec S) → List ℕ
  long_of none = []
  long_of (some o) = o.long_name

  abbrev pub short_of : Option (OptionSpec S) → ℕ
  short_of none = 0
  short_of (some o) = o.short_name

  abbrev pub letters : List (OptionSpec S) → List ℕ → List ℕ
  letters os [] = []
  letters os (i ∷ is) = short_of (get_elem? os i) ∷ letters os is

  abbrev pub spell : List (OptionSpec S) → Item → List (List ℕ)
  spell os (long_flag i) = long_label (long_of (get_elem? os i)) ∷ []
  spell os (long_value i true v) = long_label (long_of (get_elem? os i) ++ (b'=' ∷ v)) ∷ []
  spell os (long_value i false v) = long_label (long_of (get_elem? os i)) ∷ v ∷ []
  spell os (cluster i is) = (b'-' ∷ letters os (i ∷ is)) ∷ []
  spell os (cluster_value is i style v) =
      (b'-' ∷ (letters os is ++ (short_of (get_elem? os i) ∷ (spell_value style v).0)))
      ∷ (spell_value style v).1
  spell os (positional v) = v ∷ []

  abbrev pub spell_all : List (OptionSpec S) → List Item → List (List ℕ)
  spell_all os [] = []
  spell_all os (x ∷ xs) = spell os x ++ spell_all os xs

  -- The meaning of an item: a flag is set, or a text that converts is stored, and what was named is
  -- seen.
  unfoldable pub raise : ℕ → Run S → Option (Run S)
  raise i r = elim (get_elem? r.options i) [ none ↦ none | some o ↦ some (raise_flag i o r) ]

  unfoldable pub raise_all : List ℕ → Run S → Option (Run S)
  raise_all [] r = some r
  raise_all (i ∷ is) r = elim (raise i r) [ none ↦ none | some r' ↦ raise_all is r' ]

  unfoldable pub give : ℕ → List ℕ → Run S → Option (Run S)
  give i v r = elim (get_elem? r.options i) [
    | none ↦ none
    | some o ↦ elim (o.assign v r.vars) [
      | none ↦ none
      | some vars ↦ some (see_option i o (record r { vars = vars }))
    ]
  ]

  unfoldable pub place : List ℕ → Run S → Option (Run S)
  place v r = elim (get_elem? r.positionals r.positional_index) [
    | none ↦ none
    | some s ↦ elim (s.assign v r.vars) [
      | none ↦ none
      | some vars ↦ some (
          see_positional r.positional_index s
            (record r { positional_index = r.positional_index + 1; vars = vars }))
    ]
  ]

  unfoldable pub perform : Item → Run S → Option (Run S)
  unfolding raise raise_all give place
  perform (long_flag i) r = raise i r
  perform (long_value i inlined v) r = give i v r
  perform (cluster i is) r = raise_all (i ∷ is) r
  perform (cluster_value is i style v) r = elim (raise_all is r) [
    | none ↦ none
    | some r' ↦ give i v r'
  ]
  perform (positional v) r = place v r

  unfoldable pub perform_all : List Item → Run S → Option (Run S)
  perform_all [] r = some r
  perform_all (x ∷ xs) r = elim (perform x r) [ none ↦ none | some r' ↦ perform_all xs r' ]

  unfoldable pub place_all : List (List ℕ) → Run S → Option (Run S)
  place_all [] r = some r
  place_all (v ∷ vs) r = elim (place v r) [ none ↦ none | some r' ↦ place_all vs r' ]

abbrev pub HasNoEquals : List ℕ → Type 0
HasNoEquals [] = Unit {0}
HasNoEquals (c ∷ s) = ((c == b'=') ≡ false) × HasNoEquals s

abbrev pub IsAttachable : Style → List ℕ → Type 0
IsAttachable attached [] = ⊥
IsAttachable attached (c ∷ v) = (c == b'=') ≡ false
IsAttachable inline v = Unit {0}
IsAttachable next v = Unit {0}

module _ {S : Type 0} where
  -- The option at a place is not help, takes a value or does not, and has a name to be called by.
  pub record IsLong (os : List (OptionSpec S)) (takes_value : Bool) (i : ℕ) : Type 0 where
    pub option : OptionSpec S
    pub place : get_elem? os i ≡ some option
    pub no_help : option.is_help ≡ false
    pub kind : option.takes_value ≡ takes_value
    pub long : is_empty option.long_name ≡ false
    pub plain : HasNoEquals option.long_name

  pub record IsShort (os : List (OptionSpec S)) (takes_value : Bool) (i : ℕ) : Type 0 where
    pub option : OptionSpec S
    pub place : get_elem? os i ≡ some option
    pub no_help : option.is_help ≡ false
    pub kind : option.takes_value ≡ takes_value
    pub short : (option.short_name == 0) ≡ false
    pub plain : (option.short_name == b'-') ≡ false

  abbrev pub AreShortFlags : List (OptionSpec S) → List ℕ → Type 0
  AreShortFlags os [] = Unit {0}
  AreShortFlags os (i ∷ is) = IsShort os false i × AreShortFlags os is

  abbrev pub IsItem : List (OptionSpec S) → Item → Type 0
  IsItem os (long_flag i) = IsLong os false i
  IsItem os (long_value i inlined v) = IsLong os true i
  IsItem os (cluster i is) = AreShortFlags os (i ∷ is)
  IsItem os (cluster_value is i style v) =
      AreShortFlags os is × IsShort os true i × IsAttachable style v
  IsItem os (positional v) = behind_dash v ≡ none

  abbrev pub AreItems : List (OptionSpec S) → List Item → Type 0
  AreItems os [] = Unit {0}
  AreItems os (x ∷ xs) = IsItem os x × AreItems os xs
