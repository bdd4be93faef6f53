-- ===== src/JsonParser/Numbers.antt =====
-- json_parser.hpp: the parts of the scanner of numbers, against the grammar of RFC 8259.
use egl_utils_cpp.Prelude.{
  ℕ, suc, ◌≡◌, refl, sym, ◌∙◌, ap, subst, Bool, true, false, ◌||◌, List, [], ◌∷◌, ◌++◌, length,
  drop, ◌==◌, ==_iff, if◌then◌else◌, Bool-cases, inl, inr, ◌⊎◌, arith,
}
use egl_utils_cpp.JsonParser.Types.{
  number_needs_digit, fraction_needs_digit, exponent_needs_digit, first_or_nul,
}
use egl_utils_cpp.JsonParser.Scan.{
  is_digit, passed, refused, Scanner, shift, ◌▷◌, minus_sign, integer_part, digits_or,
  fraction_part, exponent_sign, exponent_part,
}
use egl_utils_cpp.JsonParser.Grammar.{
  SomeDigits, Both, IsMinus, no_minus, minus, IsInt, lone_zero, from_digit, IsFrac, no_frac, point,
  IsSign, no_sign, plus_or_minus, IsExp, no_exp, exp, Reads, Passes, NoDigit, IsDigit, passed_inj,
  shift_inv, Reads-Both, Passes-Both, Reads-digits_or, Passes-digits_or,
}

pub Reads-minus_sign : Reads IsMinus minus_sign
unfolding minus_sign
Reads-minus_sign [] n e = ([], [], refl, sym (passed_inj 0 n e), no_minus)
Reads-minus_sign (c ∷ l) n e = elim (Bool-cases (c == b'-')) [
  | inl h ↦
      let f : passed 1 ≡ passed n = sym (ap (λ b. passed (if b then 1 else 0)) h) ∙ e in
      (b'-' ∷ [], l, ap (λ x. x ∷ l) ((==_iff c b'-').0 h), sym (passed_inj 1 n f), minus)
  | inr h ↦
      let f : passed 0 ≡ passed n = sym (ap (λ b. passed (if b then 1 else 0)) h) ∙ e in
      ([], c ∷ l, refl, sym (passed_inj 0 n f), no_minus)
]

-- What follows does not begin with a `-`.
abbrev pub NoMinus : List ℕ → Type 0
NoMinus rest = (first_or_nul rest == b'-') ≡ false

pub Passes-minus_sign : Passes IsMinus NoMinus minus_sign
unfolding minus_sign
Passes-minus_sign s rest no_minus follow = ap (λ b. passed (if b then 1 else 0)) follow
Passes-minus_sign s rest minus follow = refl

IsInt-SomeDigits :
    (c : ℕ) (l s rest : List ℕ) → c ∷ l ≡ s ++ rest → (c == b'0') ≡ false → SomeDigits s → IsInt s
IsInt-SomeDigits c l [] rest split h shape = absurd shape
IsInt-SomeDigits c l (d ∷ s) rest split h shape =
    from_digit (subst (λ x. (x == b'0') ≡ false) (ap first_or_nul split) h) shape

pub Reads-integer_part : Reads IsInt integer_part
unfolding integer_part is_digit digits_or
Reads-integer_part [] n e = absurd (let d : refused number_needs_digit 0 ≡ passed n = e in cc)
Reads-integer_part (c ∷ l) n e = elim (Bool-cases (c == b'0')) [
  | inl h ↦
      let f : passed 1 ≡ passed n =
        sym (ap (λ b. if b then passed 1 else digits_or number_needs_digit (c ∷ l)) h) ∙ e in
      (b'0' ∷ [], l, ap (λ x. x ∷ l) ((==_iff c b'0').0 h), sym (passed_inj 1 n f), lone_zero)
  | inr h ↦
      let f : digits_or number_needs_digit (c ∷ l) ≡ passed n =
        sym (ap (λ b. if b then passed 1 else digits_or number_needs_digit (c ∷ l)) h) ∙ e in
      let (s, rest, split, size, shape) = Reads-digits_or number_needs_digit (c ∷ l) n f in
      (s, rest, split, size, IsInt-SomeDigits c l s rest split h shape)
]

pub Passes-integer_part : Passes IsInt NoDigit integer_part
unfolding integer_part digits_or
Passes-integer_part s rest lone_zero follow = refl
Passes-integer_part s rest (from_digit {c} {s = t} h shape) follow =
    ap (λ b. if b then passed 1 else digits_or number_needs_digit ((c ∷ t) ++ rest)) h
    ∙ Passes-digits_or number_needs_digit (c ∷ t) rest shape follow

-- A part that begins with a byte of a test, or is absent.
module _ (test : ℕ → Bool) (P : List ℕ → Type 0) (scan : Scanner) where
  abbrev optional : Scanner
  optional l = if test (first_or_nul l) then shift 1 (scan (drop 1 l)) else passed 0

  Reads-optional :
      test 0 ≡ false
      → Reads P scan
      → (l : List ℕ) (n : ℕ) → optional l ≡ passed n
      → (n ≡ 0)
        ⊎ ((c : ℕ) × (s rest : List ℕ) × (l ≡ c ∷ (s ++ rest))
            × (n ≡ suc (length s))
            × (test c ≡ true)
            × P s)
  Reads-optional nul reads [] n e =
      inl (passed_inj n 0 (sym e ∙ ap (λ b. if b then shift 1 (scan []) else passed 0) nul))
  Reads-optional nul reads (c ∷ l) n e = elim (Bool-cases (test c)) [
    | inl h ↦
        let f : shift 1 (scan l) ≡ passed n =
          sym (ap (λ b. if b then shift 1 (scan l) else passed 0) h) ∙ e in
        let (j, g, sum) = shift_inv 1 (scan l) n f in
        let (s, rest, split, size, shape) = reads l j g in
        inr (c, s, rest, ap (λ x. c ∷ x) split, omega arith, h, shape)
    | inr h ↦ inl (passed_inj n 0 (sym e ∙ ap (λ b. if b then shift 1 (scan l) else passed 0) h))
  ]

  optional-present :
      (c : ℕ) (s rest : List ℕ)
      → test c ≡ true
      → scan (s ++ rest) ≡ passed (length s)
      → optional ((c ∷ s) ++ rest) ≡ passed (suc (length s))
  unfolding shift
  optional-present c s rest h e =
      ap (λ b. if b then shift 1 (scan (s ++ rest)) else passed 0) h
      ∙ ap (shift 1) e
      ∙ ap passed (omega arith)

  optional-absent : (rest : List ℕ) → test (first_or_nul rest) ≡ false → optional rest ≡ passed 0
  optional-absent rest h = ap (λ b. if b then shift 1 (scan (drop 1 rest)) else passed 0) h

abbrev pub is_point : ℕ → Bool
is_point c = c == b'.'

abbrev pub is_exponent : ℕ → Bool
is_exponent c = c == b'e' || c == b'E'

abbrev is_sign : ℕ → Bool
is_sign c = c == b'+' || c == b'-'

pub Reads-fraction_part : Reads IsFrac fraction_part
unfolding fraction_part
Reads-fraction_part l n e =
    elim (Reads-optional is_point SomeDigits (digits_or fraction_needs_digit) refl
      (Reads-digits_or fraction_needs_digit) l n e) [
        | inl z ↦ ([], l, refl, z, no_frac)
        | inr (c, s, rest, split, size, h, shape) ↦ (
          b'.' ∷ s,
          rest,
          split ∙ ap (λ x. x ∷ (s ++ rest)) ((==_iff c b'.').0 h),
          size,
          point shape,
        )
      ]

-- What follows does not begin with a digit or a point.
abbrev pub NoFrac : List ℕ → Type 0
NoFrac rest = NoDigit rest × (is_point (first_or_nul rest) ≡ false)

pub Passes-fraction_part : Passes IsFrac NoFrac fraction_part
unfolding fraction_part
Passes-fraction_part s rest no_frac (_, h) =
    optional-absent is_point SomeDigits (digits_or fraction_needs_digit) rest h
Passes-fraction_part s rest (point {s = t} shape) (d, _) =
    optional-present is_point SomeDigits (digits_or fraction_needs_digit) b'.' t rest refl
      (Passes-digits_or fraction_needs_digit t rest shape d)

Reads-exponent_sign : Reads IsSign exponent_sign
unfolding exponent_sign
Reads-exponent_sign [] n e = ([], [], refl, sym (passed_inj 0 n e), no_sign)
Reads-exponent_sign (c ∷ l) n e = elim (Bool-cases (is_sign c)) [
  | inl h ↦
      let f : passed 1 ≡ passed n = sym (ap (λ b. passed (if b then 1 else 0)) h) ∙ e in
      (c ∷ [], l, refl, sym (passed_inj 1 n f), plus_or_minus h)
  | inr h ↦
      let f : passed 0 ≡ passed n = sym (ap (λ b. passed (if b then 1 else 0)) h) ∙ e in
      ([], c ∷ l, refl, sym (passed_inj 0 n f), no_sign)
]

abbrev NoSign : List ℕ → Type 0
NoSign rest = is_sign (first_or_nul rest) ≡ false

Passes-exponent_sign : Passes IsSign NoSign exponent_sign
unfolding exponent_sign
Passes-exponent_sign s rest no_sign follow = ap (λ b. passed (if b then 1 else 0)) follow
Passes-exponent_sign s rest (plus_or_minus h) follow = ap (λ b. passed (if b then 1 else 0)) h

digit-NoSign : (c : ℕ) → IsDigit c → is_sign c ≡ false
digit-NoSign c h = ground arith

SomeDigits-NoSign : (s rest : List ℕ) → SomeDigits s → NoDigit rest → NoSign (s ++ rest)
SomeDigits-NoSign [] rest shape follow = absurd shape
SomeDigits-NoSign (c ∷ s) rest (h, _) follow = digit-NoSign c h

abbrev power : Scanner
power = exponent_sign ▷ digits_or exponent_needs_digit

pub Reads-exponent_part : Reads IsExp exponent_part
unfolding exponent_part
Reads-exponent_part l n e =
    elim (Reads-optional is_exponent (Both IsSign SomeDigits) power refl
      (Reads-Both Reads-exponent_sign (Reads-digits_or exponent_needs_digit)) l n e) [
        | inl z ↦ ([], l, refl, z, no_exp)
        | inr (c, s, rest, split, size, h, shape) ↦ (c ∷ s, rest, split, size, exp h shape)
      ]

-- What follows does not begin as a number goes on.
abbrev pub Ends : List ℕ → Type 0
Ends rest = NoFrac rest × (is_exponent (first_or_nul rest) ≡ false)

pub Passes-exponent_part : Passes IsExp Ends exponent_part
unfolding exponent_part
Passes-exponent_part s rest no_exp (_, h) =
    optional-absent is_exponent (Both IsSign SomeDigits) power rest h
Passes-exponent_part s rest (exp {e} {s = t} h shape) ((d, _), _) =
    optional-present is_exponent (Both IsSign SomeDigits) power e t rest h (
      Passes-Both exponent_sign (digits_or exponent_needs_digit) Passes-exponent_sign
        (Passes-digits_or exponent_needs_digit) SomeDigits-NoSign t rest shape d)
