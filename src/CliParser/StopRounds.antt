-- ===== src/CliParser/StopRounds.antt =====
-- One round of the loop of `CliParser::parse` on the tokens that end it.
use egl_utils_cpp.Prelude.{
  ℕ, ◌+◌, ◌≡◌, refl, ap, ◌∙◌, Bool, true, false, Option, none, some, List, [], ◌∷◌, ◌++◌, ◌==◌,
}
use egl_utils_cpp.CliParser.Types.{ParseResult, OptionSpec, is_ok}
use egl_utils_cpp.CliParser.Register.{is_empty}
use egl_utils_cpp.CliParser.Parse.{
  Run, split_inline, long_label, short_label, parse_long, parse_short, long_option, short_value,
  assign_next, consume_positional,
}
use egl_utils_cpp.CliParser.Loop.{round}
use egl_utils_cpp.CliParser.Names.{AreNamed}
use egl_utils_cpp.CliParser.Same.{AreSame}
use egl_utils_cpp.CliParser.Items.{letters, spell_value, raise_all, AreShortFlags}
use egl_utils_cpp.CliParser.Clusters.{
  parse_short-raise_all, parse_short_value, short_value-spell_value,
}
use egl_utils_cpp.CliParser.Longs.{split_inline-value, split_inline-plain, parse_long_found}
use egl_utils_cpp.CliParser.Rounds.{round_long, round_short, round_positional, lettered}
use egl_utils_cpp.CliParser.Stops.{
  spell_inline, HasLong, HasShort, Stops, long_unknown, long_help, long_flag_value, long_missing,
  long_invalid, long_invalid_next, short_unknown, short_help, short_missing, short_invalid,
  positional_extra, positional_invalid,
}
use egl_utils_cpp.CliParser.Stopped.{
  IsStopped, split_inline-spell_inline, is_empty-append, parse_long_unknown, parse_short_unknown,
  parse_short_help, assign_option_invalid, long-IsFound, short-IsFound, find_absent_long,
  find_absent_short,
}

module _ {S : Type 0} where
  -- The round of a long option that does not succeed.
  stopped_long :
      (r : Run S) (body : List ℕ) (tail : List (List ℕ)) (result : ParseResult) (end : Run S)
      → is_empty body ≡ false
      → parse_long body (record r { rest = tail }) ≡ (result, end)
      → round false (long_label body) (record r { rest = tail }) ≡ (false, (result, end))
  stopped_long r body tail result end h e =
      round_long body (record r { rest = tail }) h ∙ ap (λ x. (false, x)) e

  ends_with :
      (r r' : Run S) (token : List ℕ) (tail rest : List (List ℕ)) (k : ℕ) (result : ParseResult)
      → round false token (record r { rest = tail })
        ≡ (false, (result, record r' { rest = rest; positional_index = k }))
      → is_ok result ≡ false
      → IsStopped r token tail result r'
  ends_with r r' token tail rest k result e bad = record {
    end = record r' { rest = rest; positional_index = k };
    ended = e;
    bad = bad;
    options = refl;
    positionals = refl;
    vars = refl;
  }

  module _ (os : List (OptionSpec S)) (names : AreNamed os) where
    -- The round of a cluster that does not succeed behind its flags.
    stopped_cluster :
        (is : List ℕ) (c : ℕ) (body : List ℕ) (r r' : Run S) (tail : List (List ℕ))
        (result : ParseResult) (end : Run S)
        → AreShortFlags os is
        → AreSame os r.options
        → raise_all is r ≡ some r'
        → (c == b'-') ≡ false
        → parse_short (c ∷ body) (record r' { rest = tail }) ≡ (result, end)
        → round false (b'-' ∷ (letters os is ++ (c ∷ body))) (record r { rest = tail })
          ≡ (false, (result, end))
    stopped_cluster [] c body r r' tail result end flags same raised h e =
        let (through, _) = parse_short-raise_all os names [] (c ∷ body) r tail flags same raised in
        round_short c body (record r { rest = tail }) h ∙ ap (λ x. (false, x)) (through ∙ e)
    stopped_cluster (i ∷ is) c body r r' tail result end (w, flags) same raised h e =
        let (through, _) =
          parse_short-raise_all os names (i ∷ is) (c ∷ body) r tail (w, flags) same raised in
        round_short _ (letters os is ++ (c ∷ body)) (record r { rest = tail })
          (lettered os names i w)
        ∙ ap (λ x. (false, x)) (through ∙ e)

    -- The round of an option that its long name finds, from what `long_option` gives.
    found_long :
        (r : Run S) (i : ℕ) (o : OptionSpec S) (body : List ℕ) (value : Option (List ℕ))
        (tail : List (List ℕ)) (result : ParseResult) (end : Run S)
        → HasLong os i o
        → AreSame os r.options
        → split_inline body ≡ (o.long_name, value)
        → is_empty body ≡ false
        → ((seen : Bool)
            → long_option i (record o { seen = seen }) value (record r { rest = tail })
              ≡ (result, end))
        → round false (long_label body) (record r { rest = tail }) ≡ (false, (result, end))
    found_long r i o body value tail result end w same split filled e =
        let f = long-IsFound os names r i o w same in
        stopped_long r body tail result end filled (
          parse_long_found (record r { rest = tail }) i body o.long_name value
            (record o { seen = f.seen }) split f.by_name f.place
          ∙ e f.seen)

    -- The round of a cluster that ends with an option that takes a value.
    found_short :
        (is : List ℕ) (i : ℕ) (o : OptionSpec S) (body : List ℕ) (r r' : Run S)
        (tail : List (List ℕ)) (result : ParseResult) (end : Run S)
        → AreShortFlags os is
        → AreSame os r.options
        → raise_all is r ≡ some r'
        → HasShort os i o
        → o.is_help ≡ false
        → o.takes_value ≡ true
        → ((seen : Bool)
            → short_value i (record o { seen = seen }) o.short_name body (record r' { rest = tail })
              ≡ (result, end))
        → round false (b'-' ∷ (letters os is ++ (o.short_name ∷ body))) (record r { rest = tail })
          ≡ (false, (result, end))
    found_short is i o body r r' tail result end flags same raised w h t e =
        let (_, kept) = parse_short-raise_all os names is [] r tail flags same raised in
        let f = short-IsFound os names r' i o w kept in
        stopped_cluster is o.short_name body r r' tail result end flags same raised w.plain (
          parse_short_value os names (record r' { rest = tail }) i o.short_name body
            (record o { seen = f.seen }) f.by_name f.place h t
          ∙ e f.seen)

    pub Stops-IsStopped :
        (r r' : Run S) (token : List ℕ) (tail : List (List ℕ)) (result : ParseResult)
        → AreSame os r.options
        → Stops os r token tail result r'
        → IsStopped r token tail result r'
    unfolding long_option assign_next short_value consume_positional
    Stops-IsStopped r _ _ _ _ same (long_unknown name value tail plain filled absent) =
        ends_with r r _ tail tail r.positional_index _
          (stopped_long r (name ++ spell_inline value) tail _ _ filled (
            parse_long_unknown (record r { rest = tail }) _ name value
              (split_inline-spell_inline name value plain)
              (find_absent_long os r.options name same absent)))
          refl
    Stops-IsStopped r _ _ _ _ same (long_help i o value tail w h) =
        ends_with r r _ tail tail r.positional_index _
          (found_long r i o (o.long_name ++ spell_inline value) value tail _ _ w same
            (split_inline-spell_inline o.long_name value w.plain)
            (is_empty-append o.long_name (spell_inline value) w.long)
            (λ seen. rw (long_option, h) refl))
          refl
    Stops-IsStopped r _ _ _ _ same (long_flag_value i o value tail w h t) =
        ends_with r r _ tail tail r.positional_index _
          (found_long r i o (o.long_name ++ (b'=' ∷ value)) (some value) tail _ _ w same
            (split_inline-value o.long_name value w.plain)
            (is_empty-append o.long_name (b'=' ∷ value) w.long)
            (λ seen. rw (long_option, h, t) refl))
          refl
    Stops-IsStopped r _ _ _ _ same (long_missing i o w h t) =
        ends_with r r _ [] [] r.positional_index _
          (found_long r i o o.long_name none [] _ _ w same (split_inline-plain o.long_name w.plain)
            w.long (λ seen. rw (long_option, h, t) refl))
          refl
    Stops-IsStopped r _ _ _ _ same (long_invalid i o value tail w h t refused) =
        ends_with r r _ tail tail r.positional_index _
          (found_long r i o (o.long_name ++ (b'=' ∷ value)) (some value) tail _ _ w same
            (split_inline-value o.long_name value w.plain)
            (is_empty-append o.long_name (b'=' ∷ value) w.long)
            (λ seen.
              rw (long_option, h, t)
                (assign_option_invalid i (record o { seen = seen }) (long_label o.long_name) value
                  (record r { rest = tail }) refused)))
          refl
    Stops-IsStopped r _ _ _ _ same (long_invalid_next i o value rest w h t refused) =
        ends_with r r _ (value ∷ rest) rest r.positional_index _
          (found_long r i o o.long_name none (value ∷ rest) _ _ w same
            (split_inline-plain o.long_name w.plain) w.long
            (λ seen.
              rw (long_option, h, t)
                (assign_option_invalid i (record o { seen = seen }) (long_label o.long_name) value
                  (record r { rest = rest }) refused)))
          refl
    Stops-IsStopped r _ _ _ _ same (short_unknown is c body tail r' flags raised dash absent) =
        let (_, kept) = parse_short-raise_all os names is [] r tail flags same raised in
        ends_with r r' _ tail tail r'.positional_index _
          (stopped_cluster is c body r r' tail _ _ flags same raised dash (
            parse_short_unknown (record r' { rest = tail }) c body
              (find_absent_short os r'.options c kept absent)))
          refl
    Stops-IsStopped r _ _ _ _ same (short_help is i o body tail r' flags raised w h) =
        let (_, kept) = parse_short-raise_all os names is [] r tail flags same raised in
        let f = short-IsFound os names r' i o w kept in
        ends_with r r' _ tail tail r'.positional_index _
          (stopped_cluster is o.short_name body r r' tail _ _ flags same raised w.plain (
            parse_short_help (record r' { rest = tail }) i o.short_name body
              (record o { seen = f.seen }) f.by_name f.place h))
          refl
    Stops-IsStopped r _ _ _ _ same (short_missing is i o r' flags raised w h t) =
        ends_with r r' _ [] [] r'.positional_index _
          (found_short is i o [] r r' [] _ _ flags same raised w h t (λ seen. refl)) refl
    Stops-IsStopped r _ _ _ _ same
          (short_invalid is i o style value rest r' flags raised w h t ok refused) =
        let (more, behind) = spell_value style value in
        ends_with r r' _ (behind ++ rest) rest r'.positional_index _
          (found_short is i o more r r' (behind ++ rest) _ _ flags same raised w h t (λ seen.
            short_value-spell_value os names style i o.short_name value (record o { seen = seen })
              r' rest ok
            ∙ assign_option_invalid i (record o { seen = seen }) (short_label o.short_name) value
                (record r' { rest = rest }) refused))
          refl
    Stops-IsStopped r _ _ _ _ same (positional_extra token tail dash none_left) =
        ends_with r r token tail tail r.positional_index _
          (round_positional token (record r { rest = tail }) dash
            ∙ ap (λ x. (false, x)) (rw (consume_positional, none_left) refl))
          refl
    Stops-IsStopped r _ _ _ _ same (positional_invalid token tail s dash at refused) =
        ends_with r r token tail tail (r.positional_index + 1) _
          (round_positional token (record r { rest = tail }) dash
            ∙ ap (λ x. (false, x)) (rw (consume_positional, at, refused) refl))
          refl
