-- ===== src/CliParser/Names.antt =====
-- The names of a parser: each option is found by each of its names, and no two positional arguments
-- share one.
use egl_utils_cpp.Prelude.{
  ℕ, zero, suc, ◌≡◌, ◌⊎◌, inl, inr, refl, ap, Bool, true, false, ◌&&◌, Option, none, some, List, [],
  ◌∷◌, ◌++◌, length, get_elem?, ◌==◌, Option-cases, arith, str_eq_refl,
}
use egl_utils_cpp.CliParser.Types.{OptionSpec, CliParser, blank}
use egl_utils_cpp.CliParser.Register.{
  registered, is_empty, has_long, has_short, find_option, find_long, find_short, is_found,
  make_named_spec, add_flag, add_option,
}

not_found : (i : Option ℕ) → is_found i ≡ false → i ≡ none
not_found none h = refl
not_found (some i) h = absurd (let e = h in cc)

get_elem?-append_one {ℓ} :
    {A : Type ℓ} (xs : List A) (x y : A) (i : ℕ)
    → get_elem? (xs ++ (x ∷ [])) i ≡ some y
    → (get_elem? xs i ≡ some y) ⊎ ((i ≡ length xs) × (x ≡ y))
get_elem?-append_one [] x y zero h = inr (refl, cc)
get_elem?-append_one [] x y (suc i) h = absurd (let e = h in cc)
get_elem?-append_one (z ∷ xs) x y zero h = inl h
get_elem?-append_one (z ∷ xs) x y (suc i) h = elim (get_elem?-append_one xs x y i h) [
  | inl old ↦ inl old
  | inr (e, f) ↦ inr (ap suc e, f)
]

module _ {S : Type 0} where
  find-append_old :
      (p : OptionSpec S → Bool) (os ys : List (OptionSpec S)) (i : ℕ)
      → find_option p os ≡ some i
      → find_option p (os ++ ys) ≡ some i
  unfolding find_option
  find-append_old p [] ys i h = absurd (let e = h in cc)
  find-append_old p (o ∷ os) ys i h = elim (Option-cases (find_option p os)) [
    | inl absent ↦ ground arith
    | inr (j, found) ↦ let old = find-append_old p os ys j found in ground arith
  ]

  find-append_new :
      (p : OptionSpec S → Bool) (os : List (OptionSpec S)) (x : OptionSpec S)
      → find_option p os ≡ none
      → p x ≡ true
      → find_option p (os ++ (x ∷ [])) ≡ some (length os)
  unfolding find_option
  find-append_new p [] x h t = rw t refl
  find-append_new p (o ∷ os) x h t = elim (Option-cases (find_option p os)) [
    | inl absent ↦ let new = find-append_new p os x absent t in ground arith
    | inr (j, found) ↦ ground arith
  ]

  -- The option at place `i` has a name, and each of its names finds that place.
  pub record IsNamed (os : List (OptionSpec S)) (i : ℕ) (o : OptionSpec S) : Type 0 where
    pub named : (is_empty o.long_name && o.short_name == 0) ≡ false
    pub by_long : is_empty o.long_name ≡ false → find_long os o.long_name ≡ some i
    pub by_short : (o.short_name == 0) ≡ false → find_short os o.short_name ≡ some i

  abbrev pub AreNamed : List (OptionSpec S) → Type 0
  AreNamed os = (i : ℕ) (o : OptionSpec S) → get_elem? os i ≡ some o → IsNamed os i o

  -- A name that is not taken.
  pub record IsFresh (os : List (OptionSpec S)) (o : OptionSpec S) : Type 0 where
    pub named : (is_empty o.long_name && o.short_name == 0) ≡ false
    pub long_free : is_empty o.long_name ≡ false → find_long os o.long_name ≡ none
    pub short_free : (o.short_name == 0) ≡ false → find_short os o.short_name ≡ none

  has_long_self : (o : OptionSpec S) → is_empty o.long_name ≡ false → has_long o.long_name o ≡ true
  has_long_self o h = rw (h, str_eq_refl o.long_name) refl

  has_short_self :
      (o : OptionSpec S) → (o.short_name == 0) ≡ false → has_short o.short_name o ≡ true
  has_short_self o h = ground arith

  pub AreNamed-append :
      (os : List (OptionSpec S)) (x : OptionSpec S)
      → AreNamed os
      → IsFresh os x
      → AreNamed (os ++ (x ∷ []))
  AreNamed-append os x v fresh i o h = elim (get_elem?-append_one os x o i h) [
    | inl old ↦
        let w = v i o old in
        record {
          named = w.named;
          by_long = λ l. find-append_old (has_long o.long_name) os (x ∷ []) i (w.by_long l);
          by_short = λ l. find-append_old (has_short o.short_name) os (x ∷ []) i (w.by_short l);
        }
    | inr (place, e) ↦
        rw (place, ← e)
          (record {
            named = fresh.named;
            by_long = λ l.
                find-append_new (has_long x.long_name) os x (fresh.long_free l) (has_long_self x l);
            by_short = λ l.
                find-append_new (has_short x.short_name) os x (fresh.short_free l)
                  (has_short_self x l);
          })
  ]

  pub add_flag-eq :
      (p : CliParser S) (long_name : List ℕ) (short_name : ℕ) (help : List ℕ) (bound : S → S)
      {q : CliParser S}
      → add_flag p long_name short_name help bound ≡ registered q
      → let o = record blank {
        long_name = long_name;
        short_name = short_name;
        help = help;
        set_flag = bound;
      } in
        IsFresh p.options o × (q ≡ record p { options = p.options ++ (o ∷ []) })
  unfolding add_flag make_named_spec
  add_flag-eq p long_name short_name help bound h = ground arith

  pub add_option-eq :
      (p : CliParser S) (long_name : List ℕ) (short_name : ℕ) (help : List ℕ)
      (target : List ℕ → S → Option S) (required : Bool) (value_name : List ℕ) {q : CliParser S}
      → add_option p long_name short_name help target required value_name ≡ registered q
      → let o = record blank {
        long_name = long_name;
        short_name = short_name;
        help = help;
        takes_value = true;
        required = required;
        value_name = value_name;
        assign = target;
      } in
        IsFresh p.options o × (q ≡ record p { options = p.options ++ (o ∷ []) })
  unfolding add_option make_named_spec
  add_option-eq p long_name short_name help target required value_name h = ground arith
