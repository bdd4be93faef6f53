-- ===== src/CliParser/HelpText.antt =====
-- The whole help text, section by section.
use egl_utils_cpp.Prelude.{
  ℕ, ◌≡◌, refl, sym, ◌∙◌, Bool, true, false, List, [], ◌∷◌, ◌++◌, append_assoc, append-nil,
  if◌then◌else◌, codes, arith,
}
use egl_utils_cpp.StringBuilder.{StringBuilder, append, take_str}
use egl_utils_cpp.CliParser.Types.{PositionalSpec, CliParser}
use egl_utils_cpp.CliParser.Register.{is_empty}
use egl_utils_cpp.CliParser.Help.{
  positionals_width, label_column_width, usage_from, append_description, list_positionals,
  no_options, no_positionals, help,
}
use egl_utils_cpp.CliParser.Columns.{
  AreAligned, lines, positional_list, option_list, positional_rows-lines, option_rows-lines,
  options_width_mono, option_list_aligned, positional_list_aligned,
}

optioned_text :
    (b : Bool) (out : StringBuilder) (text : List ℕ)
    → (if b then out else append out text).buffer ≡ out.buffer ++ (if b then [] else text)
optioned_text true out text = sym (append-nil out.buffer)
optioned_text false out text = refl

described_text :
    (out : StringBuilder) (text : List ℕ)
    → (append_description out text).buffer
      ≡ out.buffer ++ (if is_empty text then [] else b'\n' ∷ (text ++ codes "\n"))
unfolding append_description
described_text out [] = sym (append-nil out.buffer)
described_text out (c ∷ text) = simp append_assoc

module _ {S : Type 0} where
  abbrev pub usage_list : List (PositionalSpec S) → List ℕ
  usage_list [] = []
  usage_list (s ∷ ss) =
      (if s.required then codes " <" else codes " [")
      ++ (s.name ++ ((if s.required then codes ">" else codes "]") ++ usage_list ss))

  usage_from-list :
      (out : StringBuilder) (ss : List (PositionalSpec S))
      → (usage_from out ss).buffer ≡ out.buffer ++ usage_list ss
  unfolding usage_from
  usage_from-list out [] = sym (append-nil out.buffer)
  usage_from-list out (s ∷ ss) =
      let opened = append out (if s.required then codes " <" else codes " [") in
      let closed = append (append opened s.name) (if s.required then codes ">" else codes "]") in
      usage_from-list closed ss ∙ simp append_assoc

  -- The sections of the help text, one after the other.
  abbrev pub sections : CliParser S → List ℕ
  sections p =
      let width = label_column_width p in
      codes "Usage: "
      ++ (p.program_name
          ++ ((if no_options p.options then [] else codes " [OPTIONS]")
              ++ (usage_list p.positionals
                  ++ (codes "\n"
                      ++ ((if is_empty p.description
                            then []
                            else b'\n' ∷ (p.description ++ codes "\n"))
                          ++ ((if no_positionals p.positionals
                                then []
                                else codes "\nPositional arguments:\n"
                                  ++ lines (positional_list width p.positionals))
                              ++ (codes "\nOptions:\n" ++ lines (option_list width p.options))))))))

  listed-lines :
      (width : ℕ) (out : StringBuilder) (ss : List (PositionalSpec S))
      → (list_positionals width out ss).buffer
        ≡ out.buffer
          ++ (if no_positionals ss
              then []
              else codes "\nPositional arguments:\n" ++ lines (positional_list width ss))
  unfolding list_positionals
  listed-lines width out [] = sym (append-nil out.buffer)
  listed-lines width out (s ∷ ss) =
      let header = codes "\nPositional arguments:\n" in
      positional_rows-lines width (append out header) (s ∷ ss)
      ∙ append_assoc out.buffer header (lines (positional_list width (s ∷ ss)))

  help-sections : (p : CliParser S) → help p ≡ sections p
  unfolding help take_str
  help-sections p = simp (
    option_rows-lines, listed-lines, described_text, optioned_text, usage_from-list, append_assoc,
  )

  -- The help text is the usage line, the description if there is one, and a line for each positional
  -- argument and each option in the order of registration; in all of these lines the padded label
  -- has one width, so that the descriptions stand in one column.
  pub help_aligned :
      (p : CliParser S)
      → let width = label_column_width p in
        (help p ≡ sections p)
        × AreAligned width (positional_list width p.positionals)
        × AreAligned width (option_list width p.options)
  unfolding label_column_width
  help_aligned p =
      let width = label_column_width p in
      let mono = options_width_mono (positionals_width 0 p.positionals) p.options in
      (
        help-sections p,
        positional_list_aligned 0 width p.positionals mono,
        option_list_aligned (positionals_width 0 p.positionals) width p.options (omega arith),
      )
