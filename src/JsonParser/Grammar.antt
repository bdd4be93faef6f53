-- ===== src/JsonParser/Grammar.antt =====
-- json_parser.hpp: the numbers of RFC 8259, and what it is for a scanner to pass texts of a shape.
use egl_utils_cpp.Prelude.{
  ℕ, suc, ◌+◌, ◌≡◌, ◌≤◌, inl, inr, refl, sym, ◌∙◌, ap, true, false, ◌||◌, List, [], ◌∷◌, ◌++◌,
  append_assoc, length, length-append, drop, drop-append_eq, ◌==◌, if◌then◌else◌, Bool-cases, arith,
}
use egl_utils_cpp.JsonParser.Types.{ErrorMessage, first_or_nul}
use egl_utils_cpp.JsonParser.Scan.{
  is_digit, span_length, Part, passed, refused, Scanner, shift, and_then, ◌▷◌, digits_or,
}

-- The grammar: [ minus ] int [ frac ] [ exp ].
abbrev pub IsDigit : ℕ → Type 0
IsDigit c = b'0' ≤ c × c ≤ b'9'

abbrev pub AreDigits : List ℕ → Type 0
AreDigits [] = Unit {0}
AreDigits (c ∷ s) = IsDigit c × AreDigits s

abbrev pub SomeDigits : List ℕ → Type 0
SomeDigits [] = ⊥
SomeDigits (c ∷ s) = AreDigits (c ∷ s)

-- One shape, then the other.
abbrev pub Both : (List ℕ → Type 0) → (List ℕ → Type 0) → List ℕ → Type 0
Both P Q s = (a b : List ℕ) × (s ≡ a ++ b) × P a × Q b

pub data IsMinus : List ℕ → Type 0 where
  no_minus : IsMinus []
  minus : IsMinus (b'-' ∷ [])

pub data IsInt : List ℕ → Type 0 where
  lone_zero : IsInt (b'0' ∷ [])
  from_digit : {c : ℕ} {s : List ℕ} → (c == b'0') ≡ false → AreDigits (c ∷ s) → IsInt (c ∷ s)

pub data IsFrac : List ℕ → Type 0 where
  no_frac : IsFrac []
  point : {s : List ℕ} → SomeDigits s → IsFrac (b'.' ∷ s)

pub data IsSign : List ℕ → Type 0 where
  no_sign : IsSign []
  plus_or_minus : {c : ℕ} → (c == b'+' || c == b'-') ≡ true → IsSign (c ∷ [])

pub data IsExp : List ℕ → Type 0 where
  no_exp : IsExp []
  exp :
      {e : ℕ} {s : List ℕ}
      → (e == b'e' || e == b'E') ≡ true
      → Both IsSign SomeDigits s
      → IsExp (e ∷ s)

abbrev pub IsNumber : List ℕ → Type 0
IsNumber = Both IsMinus (Both IsInt (Both IsFrac IsExp))

IsDigit-is_digit : (c : ℕ) → IsDigit c → is_digit c ≡ true
unfolding is_digit
IsDigit-is_digit c h = ground arith

is_digit-IsDigit : (c : ℕ) → is_digit c ≡ true → IsDigit c
unfolding is_digit
is_digit-IsDigit c h = ground arith

not_digit : (c : ℕ) → ¬ IsDigit c → is_digit c ≡ false
unfolding is_digit
not_digit c h = ground arith

-- A scanner reads only what has the shape, as much of it as it passes.
abbrev pub Reads : (List ℕ → Type 0) → Scanner → Type 0
Reads P scan =
    (l : List ℕ) (n : ℕ)
    → scan l ≡ passed n
    → (s rest : List ℕ) × (l ≡ s ++ rest) × (n ≡ length s) × P s

-- ... and it passes what has the shape, where what follows does not go on.
abbrev pub Passes : (List ℕ → Type 0) → (List ℕ → Type 0) → Scanner → Type 0
Passes P R scan = (s rest : List ℕ) → P s → R rest → scan (s ++ rest) ≡ passed (length s)

pub passed_inj : (n k : ℕ) → passed n ≡ passed k → n ≡ k
passed_inj n k e = ap (λ p. elim p [ passed j ↦ j | refused m j ↦ j ]) e

pub shift_inv :
    (k : ℕ) (q : Part) (n : ℕ) → shift k q ≡ passed n → (j : ℕ) × (q ≡ passed j) × (n ≡ k + j)
unfolding shift
shift_inv k (passed j) n e = (j, refl, sym (passed_inj (k + j) n e))
shift_inv k (refused m j) n e = absurd (let d = e in cc)

and_then_inv :
    (p : Part) (l : List ℕ) (second : Scanner) (n : ℕ)
    → and_then p l second ≡ passed n
    → (k j : ℕ) × (p ≡ passed k) × (second (drop k l) ≡ passed j) × (n ≡ k + j)
unfolding and_then
and_then_inv (refused m k) l second n e = absurd (let d = e in cc)
and_then_inv (passed k) l second n e =
    let (j, f, sum) = shift_inv k (second (drop k l)) n e in (k, j, refl, f, sum)

pub Reads-Both :
    {P Q : List ℕ → Type 0} {first second : Scanner}
    → Reads P first
    → Reads Q second
    → Reads (Both P Q) (first ▷ second)
Reads-Both {second} reads_first reads_second l n e =
    let (k, j, f, g, sum) = and_then_inv _ l second n e in
    let (a, r, split, size, shape) = reads_first l k f in
    let ahead : drop k l ≡ r = ap (drop k) split ∙ drop-append_eq k a r size in
    let (b, rest, split', size', shape') = reads_second r j (ap second (sym ahead) ∙ g) in
    (
      a ++ b,
      rest,
      split ∙ ap (λ x. a ++ x) split' ∙ sym (append_assoc a b rest),
      omega (arith, length-append a b, size, size'),
      (a, b, refl, shape, shape'),
    )

pub Passes-Both :
    {P Q R S : List ℕ → Type 0} (first second : Scanner)
    → Passes P R first
    → Passes Q S second
    → ((b rest : List ℕ) → Q b → S rest → R (b ++ rest))
    → Passes (Both P Q) S (first ▷ second)
unfolding and_then shift
Passes-Both first second passes_first passes_second ends s rest (a, b, split, shape, shape')
      follow =
    let whole : s ++ rest ≡ a ++ (b ++ rest) = ap (λ x. x ++ rest) split ∙ append_assoc a b rest in
    let start : first (s ++ rest) ≡ passed (length a) =
      ap first whole ∙ passes_first a (b ++ rest) shape (ends b rest shape' follow) in
    let ahead : drop (length a) (s ++ rest) ≡ b ++ rest =
      ap (drop (length a)) whole ∙ drop-append_eq (length a) a (b ++ rest) refl in
    ap (λ p. and_then p (s ++ rest) second) start
    ∙ ap (shift (length a)) (ap second ahead ∙ passes_second b rest shape' follow)
    ∙ ap passed (omega (arith, length-append a b, ap length split))

span_length_lem :
    (l : List ℕ)
    → (s rest : List ℕ) × (l ≡ s ++ rest) × (span_length is_digit l ≡ length s) × AreDigits s
unfolding span_length
span_length_lem [] = ([], [], refl, refl, tt)
span_length_lem (c ∷ l) = elim (Bool-cases (is_digit c)) [
  | inl e ↦
      let (s, rest, split, size, digits) = span_length_lem l in
      (
        c ∷ s,
        rest,
        ap (λ x. c ∷ x) split,
        ap (λ b. if b then suc (span_length is_digit l) else 0) e ∙ ap suc size,
        (is_digit-IsDigit c e, digits),
      )
  | inr e ↦ ([], c ∷ l, refl, ap (λ b. if b then suc (span_length is_digit l) else 0) e, tt)
]

pub span_length-append :
    (s rest : List ℕ)
    → AreDigits s
    → is_digit (first_or_nul rest) ≡ false
    → span_length is_digit (s ++ rest) ≡ length s
unfolding span_length
span_length-append [] [] d e = refl
span_length-append [] (c ∷ rest) d e = ap (λ b. if b then suc (span_length is_digit rest) else 0) e
span_length-append (c ∷ s) rest (h, d) e =
    ap (λ b. if b then suc (span_length is_digit (s ++ rest)) else 0) (IsDigit-is_digit c h)
    ∙ ap suc (span_length-append s rest d e)

abbrev pub NoDigit : List ℕ → Type 0
NoDigit rest = ¬ IsDigit (first_or_nul rest)

-- The loop over digits behind one digit.
pub spanned :
    (c : ℕ) (l : List ℕ)
    → is_digit c ≡ true
    → (s rest : List ℕ) × (c ∷ l ≡ (c ∷ s) ++ rest)
      × (span_length is_digit (c ∷ l) ≡ length (c ∷ s))
      × AreDigits s
unfolding span_length
spanned c l e =
    let (s, rest, split, size, digits) = span_length_lem l in
    (
      s,
      rest,
      ap (λ x. c ∷ x) split,
      ap (λ b. if b then suc (span_length is_digit l) else 0) e ∙ ap suc size,
      digits,
    )

pub Reads-digits_or : (m : ErrorMessage) → Reads SomeDigits (digits_or m)
unfolding digits_or is_digit
Reads-digits_or m [] n e = absurd (let d : refused m 0 ≡ passed n = e in cc)
Reads-digits_or m (c ∷ l) n e = elim (Bool-cases (is_digit c)) [
  | inl h ↦
      let (s, rest, split, size, digits) = spanned c l h in
      let f : passed (span_length is_digit (c ∷ l)) ≡ passed n =
        sym (ap (λ b. if b then passed (span_length is_digit (c ∷ l)) else refused m 0) h) ∙ e in
      (c ∷ s, rest, split, sym (passed_inj _ n f) ∙ size, (is_digit-IsDigit c h, digits))
  | inr h ↦
      let f : refused m 0 ≡ passed n =
        sym (ap (λ b. if b then passed (span_length is_digit (c ∷ l)) else refused m 0) h) ∙ e in
      absurd (let d = f in cc)
]

pub Passes-digits_or : (m : ErrorMessage) → Passes SomeDigits NoDigit (digits_or m)
unfolding digits_or
Passes-digits_or m [] rest shape follow = absurd shape
Passes-digits_or m (c ∷ s) rest (h, digits) follow =
    ap (λ b. if b then passed (span_length is_digit ((c ∷ s) ++ rest)) else refused m 0)
      (IsDigit-is_digit c h)
    ∙ ap passed (span_length-append (c ∷ s) rest (h, digits) (not_digit (first_or_nul rest) follow))
