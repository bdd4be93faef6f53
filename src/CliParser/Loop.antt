-- ===== src/CliParser/Loop.antt =====
-- The loop of `CliParser::parse` over the tokens.
use egl_utils_cpp.Prelude.{
  ℕ, zero, suc, Bool, true, false, ◌&&◌, Option, none, some, List, [], ◌∷◌, length, ◌==◌,
  if◌then◌else◌, codes, str_eq,
}
use egl_utils_cpp.CliParser.Types.{
  ParseResult, success, is_ok, OptionSpec, PositionalSpec, CliParser,
}
use egl_utils_cpp.CliParser.Parse.{
  Run, Outcome, parse_long, parse_short, consume_positional, check_required,
}

-- `token.starts_with("--")`, and the text behind it.
abbrev pub behind_dashes : List ℕ → Option (List ℕ)
behind_dashes (a ∷ b ∷ body) = if a == b'-' && b == b'-' then some body else none
behind_dashes _ = none

-- `token.size() >= 2 && token.front() == '-'`, and the text behind the dash.
abbrev pub behind_dash : List ℕ → Option (List ℕ)
behind_dash (a ∷ b ∷ body) = if a == b'-' then some (b ∷ body) else none
behind_dash _ = none

module _ {S : Type 0} where
  -- One round: whether the options have ended, and the outcome.
  unfoldable pub round : Bool → List ℕ → Run S → Bool × Outcome S
  round true token r = (true, consume_positional token r)
  round false token r =
      if str_eq token (codes "--") then (true, (success, r)) else elim (behind_dashes token) [
        | some body ↦ (false, parse_long body r)
        | none ↦ elim (behind_dash token) [
          | some body ↦ (false, parse_short body r)
          | none ↦ (false, consume_positional token r)
        ]
      ]

  -- The fuel counts rounds, each of which takes at least one token.
  unfoldable pub loop : ℕ → Bool → Run S → Outcome S
  loop zero ended r = (check_required r, r)
  loop (suc fuel) ended r = elim (r.rest) [
    | [] ↦ (check_required r, r)
    | token ∷ rest ↦
        let (ended', (result, r')) = round ended token (record r { rest = rest }) in
        elim (is_ok result) [ true ↦ loop fuel ended' r' | false ↦ (result, r') ]
  ]

  unfoldable pub unseen_options : List (OptionSpec S) → List (OptionSpec S)
  unseen_options [] = []
  unseen_options (o ∷ os) = record o { seen = false } ∷ unseen_options os

  unfoldable pub unseen_positionals : List (PositionalSpec S) → List (PositionalSpec S)
  unseen_positionals [] = []
  unseen_positionals (s ∷ ss) = record s { seen = false } ∷ unseen_positionals ss

  -- The state in front of the first token.
  unfoldable pub begin : CliParser S → S → List (List ℕ) → Run S
  unfolding unseen_options unseen_positionals
  begin p vars args = record {
    options = unseen_options p.options;
    positionals = unseen_positionals p.positionals;
    positional_index = 0;
    vars = vars;
    rest = args;
  }

  -- The result, the parser and the caller's variables.
  unfoldable pub parse : CliParser S → S → List (List ℕ) → ParseResult × CliParser S × S
  unfolding begin loop
  parse p vars args =
      let (result, r) = loop (length args) false (begin p vars args) in
      (result, record p { options = r.options; positionals = r.positionals }, r.vars)

  -- `parse(int argc, const char *const *argv)`.
  unfoldable pub parse_argv : CliParser S → S → List (List ℕ) → ParseResult × CliParser S × S
  parse_argv p vars [] = parse p vars []
  parse_argv p vars (program ∷ args) = parse p vars args
