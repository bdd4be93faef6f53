-- ===== src/JsonParser/NumberScan.antt =====
-- json_parser.hpp: the scanner of numbers as a whole, against the grammar of RFC 8259.
use egl_utils_cpp.Prelude.{
  ℕ, ◌+◌, ◌≡◌, ◌<◌, ◌↔◌, refl, sym, ◌∙◌, ap, subst, true, false, List, ◌++◌, length, take,
  take-append_eq, ◌==◌, arith,
}
use egl_utils_cpp.JsonParser.Types.{number, error, JsonEvent, JsonParser, unread, event, make_error}
use egl_utils_cpp.JsonParser.Scan.{
  Part, passed, refused, ◌▷◌, minus_sign, integer_part, fraction_part, exponent_part,
  number_scanner, number_event, scan_number,
}
use egl_utils_cpp.JsonParser.Grammar.{
  Both, IsInt, lone_zero, from_digit, IsFrac, no_frac, point, IsExp, no_exp, exp, IsNumber, Reads,
  Passes, IsDigit, NoDigit, Reads-Both, Passes-Both,
}
use egl_utils_cpp.JsonParser.Numbers.{
  NoMinus, NoFrac, Ends, is_exponent, is_point, Reads-minus_sign, Reads-integer_part,
  Reads-fraction_part, Reads-exponent_part, Passes-minus_sign, Passes-integer_part,
  Passes-fraction_part, Passes-exponent_part,
}

exponent_above : (e : ℕ) → is_exponent e ≡ true → b'9' < e
exponent_above e h = ground arith

exponent-NoDigit : (e : ℕ) → is_exponent e ≡ true → ¬ IsDigit e
exponent-NoDigit e h = λ digit. absurd (let c = exponent_above e h in omega arith)

exponent_ne_point : (e : ℕ) → is_exponent e ≡ true → is_point e ≡ false
exponent_ne_point e h = ground arith

digit-NoMinus : (c : ℕ) → IsDigit c → (c == b'-') ≡ false
digit-NoMinus c h = ground arith

-- No part goes on into the next.
IsExp-NoFrac : (s rest : List ℕ) → IsExp s → Ends rest → NoFrac (s ++ rest)
IsExp-NoFrac s rest no_exp (h, _) = h
IsExp-NoFrac s rest (exp {e} h shape) ends = (exponent-NoDigit e h, exponent_ne_point e h)

IsFrac-NoDigit : (s rest : List ℕ) → Both IsFrac IsExp s → Ends rest → NoDigit (s ++ rest)
IsFrac-NoDigit s rest (a, b, split, no_frac, shape) ends =
    subst (λ x. NoDigit (x ++ rest)) (sym split) ((IsExp-NoFrac b rest shape ends).0)
IsFrac-NoDigit s rest (a, b, split, point shape, shape') ends =
    subst (λ x. NoDigit (x ++ rest)) (sym split) (λ (low, high). absurd (omega arith))

IsInt-NoMinus :
    (s rest : List ℕ) → Both IsInt (Both IsFrac IsExp) s → Ends rest → NoMinus (s ++ rest)
IsInt-NoMinus s rest (a, b, split, lone_zero, shape) ends =
    subst (λ x. NoMinus (x ++ rest)) (sym split) refl
IsInt-NoMinus s rest (a, b, split, from_digit {c} h (d, _), shape) ends =
    subst (λ x. NoMinus (x ++ rest)) (sym split) (digit-NoMinus c d)

Reads-number_scanner : Reads IsNumber number_scanner
unfolding number_scanner
Reads-number_scanner =
    Reads-Both Reads-minus_sign
      (Reads-Both Reads-integer_part (Reads-Both Reads-fraction_part Reads-exponent_part))

Passes-number_scanner : Passes IsNumber Ends number_scanner
unfolding number_scanner
Passes-number_scanner =
    Passes-Both minus_sign (integer_part ▷ fraction_part ▷ exponent_part) Passes-minus_sign
      (Passes-Both integer_part (fraction_part ▷ exponent_part) Passes-integer_part
        (Passes-Both fraction_part exponent_part Passes-fraction_part Passes-exponent_part
          IsExp-NoFrac)
        IsFrac-NoDigit)
      IsInt-NoMinus

-- The event of a number and the parser behind it.
abbrev pub number_read : JsonParser → List ℕ → JsonEvent × JsonParser
number_read p s = (event number s, record p { pos = p.pos + length s })

number_event_inv :
    (p : JsonParser) (a : Part) (s : List ℕ)
    → number_event p a ≡ number_read p s
    → (n : ℕ) × (a ≡ passed n) × (take n (unread p) ≡ s)
unfolding number_event make_error
number_event_inv p (passed n) s e = (n, refl, ap (λ r. r.0.text) e)
number_event_inv p (refused m n) s e =
    let kind : error ≡ number = ap (λ r. r.0.token) e in absurd (let d = kind in cc)

-- Where the unread bytes are `s` and what follows it, which does not begin with a digit, a point or an
-- `e` of either case: the member scan_number returns `s` as a number, with the parser behind it, exactly
-- where `s` is a number of RFC 8259.
pub scan_number_iff :
    (p : JsonParser) (s rest : List ℕ)
    → unread p ≡ s ++ rest
    → Ends rest
    → (scan_number p ≡ number_read p s) ↔ IsNumber s
unfolding scan_number number_event
scan_number_iff p s rest split ends = (
  λ e.
      let (n, scanned, text) = number_event_inv p _ s e in
      let (t, more, split', size, shape) = Reads-number_scanner (unread p) n scanned in
      subst IsNumber (sym (ap (take n) split' ∙ take-append_eq n t more size) ∙ text) shape,
  λ shape.
      let scanned : number_scanner (unread p) ≡ passed (length s) =
        ap number_scanner split ∙ Passes-number_scanner s rest shape ends in
      ap (number_event p) scanned
      ∙ ap (λ t. (event number t, record p { pos = p.pos + length s }))
          (ap (take (length s)) split ∙ take-append_eq (length s) s rest refl),
)
