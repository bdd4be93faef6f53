-- ===== src/CliParser/Clusters.antt =====
-- What `parse_short` does with the spelling of a cluster.
use egl_utils_cpp.Prelude.{
  ℕ, ◌≡◌, refl, sym, ap, ◌∙◌, Bool, true, false, Option, none, some, List, [], ◌∷◌, ◌++◌, get_elem?,
  Option-cases, inl, inr, arith,
}
use egl_utils_cpp.CliParser.Types.{OptionSpec, success}
use egl_utils_cpp.CliParser.Register.{has_long, has_short, find_long, find_short}
use egl_utils_cpp.CliParser.Parse.{
  Run, see_option, assign_option, assign_next, raise_flag, short_value, parse_short, short_label,
}
use egl_utils_cpp.CliParser.Names.{AreNamed}
use egl_utils_cpp.CliParser.Same.{AreSame, get_elem?-AreSame, find_option-AreSame, set-AreSame}
use egl_utils_cpp.CliParser.Items.{
  Style, attached, inline, next, long_of, short_of, letters, spell_value, raise, raise_all, give,
  IsAttachable, IsLong, IsShort, AreShortFlags,
}

module _ {S : Type 0} where
  -- An option of the run that its name finds.
  pub record Found (r : Run S) (takes_value : Bool) (i : ℕ) (found : Option ℕ) : Type 0 where
    pub option : OptionSpec S
    pub place : get_elem? r.options i ≡ some option
    pub no_help : option.is_help ≡ false
    pub kind : option.takes_value ≡ takes_value
    pub by_name : found ≡ some i

  module _ (os : List (OptionSpec S)) (names : AreNamed os) where
    pub short-Found :
        (r : Run S) {b : Bool} (i : ℕ)
        → IsShort os b i
        → AreSame os r.options
        → Found r b i (find_short r.options (short_of (get_elem? os i)))
    short-Found r i w same =
        let (o, at, e) = get_elem?-AreSame os r.options i same w.place in
        let name = w.option.short_name in
        let found =
          find_option-AreSame (has_short name) os r.options (λ a b s. ap (has_short name) s) same in
        record {
          option = o;
          place = at;
          no_help = sym (ap (λ x. x.is_help) e) ∙ w.no_help;
          kind = sym (ap (λ x. x.takes_value) e) ∙ w.kind;
          by_name = rw w.place (found ∙ (names i w.option w.place).by_short w.short);
        }

    pub long-Found :
        (r : Run S) {b : Bool} (i : ℕ)
        → IsLong os b i
        → AreSame os r.options
        → Found r b i (find_long r.options (long_of (get_elem? os i)))
    long-Found r i w same =
        let (o, at, e) = get_elem?-AreSame os r.options i same w.place in
        let name = w.option.long_name in
        let found =
          find_option-AreSame (has_long name) os r.options (λ a b s. ap (has_long name) s) same in
        record {
          option = o;
          place = at;
          no_help = sym (ap (λ x. x.is_help) e) ∙ w.no_help;
          kind = sym (ap (λ x. x.takes_value) e) ∙ w.kind;
          by_name = rw w.place (found ∙ (names i w.option w.place).by_long w.long);
        }

    parse_short_flag :
        (r : Run S) (i c : ℕ) (body : List ℕ) (o : OptionSpec S)
        → find_short r.options c ≡ some i
        → get_elem? r.options i ≡ some o
        → o.is_help ≡ false
        → o.takes_value ≡ false
        → parse_short (c ∷ body) r ≡ parse_short body (raise_flag i o r)
    unfolding parse_short
    parse_short_flag r i c body o n p h t = ground arith

    pub parse_short_value :
        (r : Run S) (i c : ℕ) (body : List ℕ) (o : OptionSpec S)
        → find_short r.options c ≡ some i
        → get_elem? r.options i ≡ some o
        → o.is_help ≡ false
        → o.takes_value ≡ true
        → parse_short (c ∷ body) r ≡ short_value i o c body r
    unfolding parse_short
    parse_short_value r i c body o n p h t = ground arith

    pub parse_short-raise_all :
        (is body : List ℕ) (r : Run S) (tail : List (List ℕ)) {r' : Run S}
        → AreShortFlags os is
        → AreSame os r.options
        → raise_all is r ≡ some r'
        → (parse_short (letters os is ++ body) (record r { rest = tail })
            ≡ parse_short body (record r' { rest = tail }))
          × AreSame os r'.options
    unfolding raise_all raise raise_flag
    parse_short-raise_all [] body r tail {r'} h same e =
        let k : r ≡ r' = cc in rw (← k) (refl, same)
    parse_short-raise_all (i ∷ is) body r tail {r'} (w, h) same e =
        let f = short-Found r i w same in
        let more : raise_all is (raise_flag i f.option r) ≡ some r' =
          sym (rw (raise_all, raise, f.place) refl) ∙ e in
        let (parsed, kept) =
          parse_short-raise_all is body (raise_flag i f.option r) tail h
            (set-AreSame os r.options i same f.place) more in
        let first =
          parse_short_flag (record r { rest = tail }) i (short_of (get_elem? os i))
            (letters os is ++ body) f.option f.by_name f.place f.no_help f.kind in
        (first ∙ parsed, kept)

    pub assign_option_given :
        (r : Run S) (tail : List (List ℕ)) (i : ℕ) (label v : List ℕ) {r' : Run S}
        (o : OptionSpec S)
        → get_elem? r.options i ≡ some o
        → AreSame os r.options
        → give i v r ≡ some r'
        → (assign_option i o label v (record r { rest = tail })
            ≡ (success, record r' { rest = tail }))
          × AreSame os r'.options
    unfolding give assign_option
    assign_option_given r tail i label v {r'} o at same e =
        elim (Option-cases (o.assign v r.vars)) [
          | inl refused ↦
              let f : none ≡ some r' = sym (rw (give, at, refused) refl) ∙ e in absurd (cc)
          | inr (vars, stored) ↦
              let f : some (see_option i o (record r { vars = vars })) ≡ some r' =
                sym (rw (give, at, stored) refl) ∙ e in
              let k : see_option i o (record r { vars = vars }) ≡ r' = cc in
              rw (assign_option, stored, ← k) (refl, set-AreSame os r.options i same at)
        ]

    pub short_value-spell_value :
        (style : Style) (i c : ℕ) (v : List ℕ) (o : OptionSpec S) (r : Run S) (tail : List (List ℕ))
        → IsAttachable style v
        → short_value i o c
            (spell_value style v).0
            (record r { rest = (spell_value style v).1 ++ tail })
          ≡ assign_option i o (short_label c) v (record r { rest = tail })
    unfolding short_value assign_next
    short_value-spell_value attached i c [] o r tail ok = absurd ok
    short_value-spell_value attached i c (a ∷ v) o r tail ok = rw ok refl
    short_value-spell_value inline i c v o r tail ok = refl
    short_value-spell_value next i c v o r tail ok = refl

    -- A value option at the end of a cluster, with its value attached or as the next token.
    pub parse_short_given :
        (style : Style) (i : ℕ) (v : List ℕ) (r : Run S) (tail : List (List ℕ)) {r' : Run S}
        → IsShort os true i
        → IsAttachable style v
        → AreSame os r.options
        → give i v r ≡ some r'
        → (parse_short
              (short_of (get_elem? os i) ∷ (spell_value style v).0)
              (record r { rest = (spell_value style v).1 ++ tail })
            ≡ (success, record r' { rest = tail }))
          × AreSame os r'.options
    parse_short_given style i v r tail w ok same e =
        let f = short-Found r i w same in
        let c = short_of (get_elem? os i) in
        let (given, kept) =
          assign_option_given r tail i (short_label c) v f.option f.place same e in
        let first =
          parse_short_value (record r { rest = (spell_value style v).1 ++ tail }) i c
            (spell_value style v).0 f.option f.by_name f.place f.no_help f.kind in
        (first ∙ short_value-spell_value style i c v f.option r tail ok ∙ given, kept)
