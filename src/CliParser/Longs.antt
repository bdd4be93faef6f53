-- ===== src/CliParser/Longs.antt =====
-- What `parse_long` does with the spelling of a long option.
use egl_utils_cpp.Prelude.{
  ℕ, ◌≡◌, refl, sym, ◌∙◌, Bool, true, false, Option, none, some, List, [], ◌∷◌, ◌++◌, get_elem?,
  arith,
}
use egl_utils_cpp.CliParser.Types.{OptionSpec, success}
use egl_utils_cpp.CliParser.Register.{find_long}
use egl_utils_cpp.CliParser.Parse.{
  Run, split_inline, assign_option, assign_next, raise_flag, long_option, parse_long, long_label,
}
use egl_utils_cpp.CliParser.Names.{AreNamed}
use egl_utils_cpp.CliParser.Same.{AreSame, set-AreSame}
use egl_utils_cpp.CliParser.Items.{long_of, raise, give, HasNoEquals, IsLong}
use egl_utils_cpp.CliParser.Clusters.{long-Found, assign_option_given}

pub split_inline-value :
    (name v : List ℕ) → HasNoEquals name → split_inline (name ++ (b'=' ∷ v)) ≡ (name, some v)
unfolding split_inline
split_inline-value [] v h = refl
split_inline-value (c ∷ name) v (n, h) = ground (arith, split_inline-value name v)

pub split_inline-plain : (name : List ℕ) → HasNoEquals name → split_inline name ≡ (name, none)
unfolding split_inline
split_inline-plain [] h = refl
split_inline-plain (c ∷ name) (n, h) = ground (arith, split_inline-plain name)

module _ {S : Type 0} where
  pub parse_long_found :
      (r : Run S) (i : ℕ) (body name : List ℕ) (value : Option (List ℕ)) (o : OptionSpec S)
      → split_inline body ≡ (name, value)
      → find_long r.options name ≡ some i
      → get_elem? r.options i ≡ some o
      → parse_long body r ≡ long_option i o value r
  unfolding parse_long
  parse_long_found r i body name value o b n p = ground arith

  long_option_flag :
      (r : Run S) (i : ℕ) (o : OptionSpec S)
      → o.is_help ≡ false
      → o.takes_value ≡ false
      → long_option i o none r ≡ (success, raise_flag i o r)
  unfolding long_option
  long_option_flag r i o h t = ground arith

  long_option_inline :
      (r : Run S) (i : ℕ) (o : OptionSpec S) (v : List ℕ)
      → o.is_help ≡ false
      → o.takes_value ≡ true
      → long_option i o (some v) r ≡ assign_option i o (long_label o.long_name) v r
  unfolding long_option
  long_option_inline r i o v h t = ground arith

  long_option_next :
      (r : Run S) (i : ℕ) (o : OptionSpec S)
      → o.is_help ≡ false
      → o.takes_value ≡ true
      → long_option i o none r ≡ assign_next i o (long_label o.long_name) r
  unfolding long_option
  long_option_next r i o h t = ground arith

  module _ (os : List (OptionSpec S)) (names : AreNamed os) where
    long_of_plain : {b : Bool} (i : ℕ) → IsLong os b i → HasNoEquals (long_of (get_elem? os i))
    long_of_plain i w = rw w.place w.plain

    pub parse_long_flag :
        (i : ℕ) (r : Run S) (tail : List (List ℕ)) {r' : Run S}
        → IsLong os false i
        → AreSame os r.options
        → raise i r ≡ some r'
        → (parse_long (long_of (get_elem? os i)) (record r { rest = tail })
            ≡ (success, record r' { rest = tail }))
          × AreSame os r'.options
    unfolding raise raise_flag
    parse_long_flag i r tail {r'} w same e =
        let f = long-Found os names r i w same in
        let name = long_of (get_elem? os i) in
        let u : some (raise_flag i f.option r) ≡ some r' = sym (rw (raise, f.place) refl) ∙ e in
        let k : raise_flag i f.option r ≡ r' = cc in
        let first =
          parse_long_found (record r { rest = tail }) i name name none f.option
            (split_inline-plain name (long_of_plain i w)) f.by_name f.place in
        let then_ = long_option_flag (record r { rest = tail }) i f.option f.no_help f.kind in
        rw (← k) (first ∙ then_, set-AreSame os r.options i same f.place)

    -- A value option by its long name, with its value behind `=` or as the next token.
    pub parse_long_value :
        (i : ℕ) (v : List ℕ) (r : Run S) (tail : List (List ℕ)) {r' : Run S}
        → IsLong os true i
        → AreSame os r.options
        → give i v r ≡ some r'
        → (parse_long (long_of (get_elem? os i) ++ (b'=' ∷ v)) (record r { rest = tail })
            ≡ (success, record r' { rest = tail }))
          × AreSame os r'.options
    parse_long_value i v r tail {r'} w same e =
        let f = long-Found os names r i w same in
        let name = long_of (get_elem? os i) in
        let (given, kept) =
          assign_option_given os names r tail i (long_label f.option.long_name) v f.option f.place
            same e in
        let first =
          parse_long_found (record r { rest = tail }) i (name ++ (b'=' ∷ v)) name (some v) f.option
            (split_inline-value name v (long_of_plain i w)) f.by_name f.place in
        let then_ = long_option_inline (record r { rest = tail }) i f.option v f.no_help f.kind in
        (first ∙ then_ ∙ given, kept)

    pub parse_long_next :
        (i : ℕ) (v : List ℕ) (r : Run S) (tail : List (List ℕ)) {r' : Run S}
        → IsLong os true i
        → AreSame os r.options
        → give i v r ≡ some r'
        → (parse_long (long_of (get_elem? os i)) (record r { rest = v ∷ tail })
            ≡ (success, record r' { rest = tail }))
          × AreSame os r'.options
    unfolding assign_next
    parse_long_next i v r tail {r'} w same e =
        let f = long-Found os names r i w same in
        let name = long_of (get_elem? os i) in
        let (given, kept) =
          assign_option_given os names r tail i (long_label f.option.long_name) v f.option f.place
            same e in
        let first =
          parse_long_found (record r { rest = v ∷ tail }) i name name none f.option
            (split_inline-plain name (long_of_plain i w)) f.by_name f.place in
        let then_ = long_option_next (record r { rest = v ∷ tail }) i f.option f.no_help f.kind in
        (first ∙ then_ ∙ given, kept)
