-- ===== src/CliParser/Valid.antt =====
-- Parsers that come from registration.
use egl_utils_cpp.Prelude.{
  ℕ, ◌≡◌, ◌⊎◌, inl, inr, refl, ap, ◌∙◌, Bool, true, false, Option, List, [], ◌∷◌, ◌++◌, Bool-cases,
  arith, str_eq, str_eq_refl, str_eq→eq,
}
use egl_utils_cpp.CliParser.Types.{PositionalSpec, CliParser, create, help_spec}
use egl_utils_cpp.CliParser.Register.{
  Registered, registered, logic_error, find_option, add_flag, add_option, has_positional,
  add_positional,
}
use egl_utils_cpp.CliParser.Names.{AreNamed, IsFresh, AreNamed-append, add_flag-eq, add_option-eq}

str_eq_comm : (s t : List ℕ) → str_eq s t ≡ false → str_eq t s ≡ false
str_eq_comm s t h = elim (Bool-cases (str_eq t s)) [
  | inl e ↦ let f : str_eq s t ≡ true = ap (λ u. str_eq s u) (str_eq→eq t s e) ∙ str_eq_refl s in cc
  | inr n ↦ n
]

Registered-cases :
    {A : Type 0} (r : Registered A)
    → ((a : A) × (r ≡ registered a)) ⊎ ((m : List ℕ) × (r ≡ logic_error m))
Registered-cases (registered a) = inl (a, refl)
Registered-cases (logic_error m) = inr (m, refl)

pub data Declaration (S : Type 0) : Type 0 where
  flag : List ℕ → ℕ → List ℕ → (S → S) → Declaration S
  value : List ℕ → ℕ → List ℕ → (List ℕ → S → Option S) → Bool → List ℕ → Declaration S
  positional : List ℕ → List ℕ → (List ℕ → S → Option S) → Bool → Declaration S

module _ {S : Type 0} where
  abbrev pub AreDistinct : List (PositionalSpec S) → Type 0
  AreDistinct [] = Unit {0}
  AreDistinct (s ∷ ss) = (has_positional s.name ss ≡ false) × AreDistinct ss

  has_positional-append :
      (name : List ℕ) (ss : List (PositionalSpec S)) (x : PositionalSpec S)
      → has_positional name ss ≡ false
      → str_eq x.name name ≡ false
      → has_positional name (ss ++ (x ∷ [])) ≡ false
  unfolding has_positional
  has_positional-append name [] x h n = ground arith
  has_positional-append name (s ∷ ss) x h n = ground (arith, has_positional-append name ss x)

  AreDistinct-append :
      (ss : List (PositionalSpec S)) (x : PositionalSpec S)
      → AreDistinct ss
      → has_positional x.name ss ≡ false
      → AreDistinct (ss ++ (x ∷ []))
  unfolding has_positional
  AreDistinct-append [] x v h = (refl, tt)
  AreDistinct-append (s ∷ ss) x (d, v) h = (
    has_positional-append s.name ss x d (str_eq_comm s.name x.name (ground arith)),
    AreDistinct-append ss x v (ground arith),
  )

  -- Every option is found by each of its names, and no two positional arguments share one.
  pub record IsValid (p : CliParser S) : Type 0 where
    pub names : AreNamed p.options
    pub distinct : AreDistinct p.positionals

  unfoldable pub declare : CliParser S → Declaration S → Registered (CliParser S)
  declare p (flag long_name short_name help bound) = add_flag p long_name short_name help bound
  declare p (value long_name short_name help target required value_name) =
      add_option p long_name short_name help target required value_name
  declare p (positional name help target required) = add_positional p name help target required

  -- Registration in a chain of calls; the first that throws ends it.
  unfoldable pub declare_all : CliParser S → List (Declaration S) → Registered (CliParser S)
  declare_all p [] = registered p
  declare_all p (d ∷ ds) = elim (declare p d) [
    | registered q ↦ declare_all q ds
    | logic_error message ↦ logic_error message
  ]

  declare-IsValid :
      (p : CliParser S) (d : Declaration S) {q : CliParser S}
      → IsValid p
      → declare p d ≡ registered q
      → IsValid q
  unfolding declare add_positional
  declare-IsValid p (flag long_name short_name help bound) v h =
      let (fresh, e) = add_flag-eq p long_name short_name help bound h in
      rw e (record { names = AreNamed-append p.options _ v.names fresh; distinct = v.distinct })
  declare-IsValid p (value long_name short_name help target required value_name) v h =
      let (fresh, e) = add_option-eq p long_name short_name help target required value_name h in
      rw e (record { names = AreNamed-append p.options _ v.names fresh; distinct = v.distinct })
  declare-IsValid p (positional name help target required) {q} v h =
      let s : PositionalSpec S = record {
        name = name;
        help = help;
        required = required;
        seen = false;
        assign = target;
      } in
      let free : has_positional name p.positionals ≡ false = ground arith in
      let e : q ≡ record p { positionals = p.positionals ++ (s ∷ []) } = ground arith in
      rw e
        (record { names = v.names; distinct = AreDistinct-append p.positionals s v.distinct free })

  create-IsValid : (program_name description : List ℕ) → IsValid (create program_name description)
  unfolding find_option
  create-IsValid program_name description =
      let free : IsFresh [] (help_spec {S = S}) = record {
        named = refl;
        long_free = λ l. refl;
        short_free = λ l. refl;
      } in
      record { names = AreNamed-append [] help_spec (λ i o h. absurd (cc)) free; distinct = tt }

  declare_all-keeps :
      (p : CliParser S) (ds : List (Declaration S)) {q : CliParser S}
      → IsValid p
      → declare_all p ds ≡ registered q
      → IsValid q
  unfolding declare_all
  declare_all-keeps p [] {q} v h = let e : q ≡ p = cc in rw e v
  declare_all-keeps p (d ∷ ds) v h = elim (Registered-cases (declare p d)) [
    | inl (q, e) ↦ declare_all-keeps q ds (declare-IsValid p d v e) (ground arith)
    | inr (m, e) ↦ absurd (ground arith)
  ]

  pub declare_all-IsValid :
      (program_name description : List ℕ) (ds : List (Declaration S)) {p : CliParser S}
      → declare_all (create program_name description) ds ≡ registered p
      → IsValid p
  declare_all-IsValid program_name description ds h =
      declare_all-keeps (create program_name description) ds
        (create-IsValid program_name description) h
