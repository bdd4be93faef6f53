-- ===== src/CliParser/Columns.antt =====
-- The rows of the help text: labels padded to one width, so that the descriptions line up.
use egl_utils_cpp.Prelude.{
  ℕ, zero, suc, ◌-◌, ◌≤◌, ◌≡◌, sym, ap, ◌∙◌, List, [], ◌∷◌, ◌++◌, length, length-append,
  length-replicate, replicate, append_assoc, append-nil, codes, arith,
}
use egl_utils_cpp.StringBuilder.{StringBuilder, append_char}
use egl_utils_cpp.CliParser.Types.{OptionSpec, PositionalSpec}
use egl_utils_cpp.CliParser.Help.{
  max_of, pad_from, append_help_row, option_label, option_help, positionals_width, options_width,
  positional_rows, option_rows,
}

-- A row: the padded label, and the description.
pub record Row : Type 0 where
  pub column : List ℕ
  pub description : List ℕ

abbrev pub line : Row → List ℕ
line r = codes "  " ++ (r.column ++ (codes "  " ++ (r.description ++ (b'\n' ∷ []))))

abbrev pub lines : List Row → List ℕ
lines [] = []
lines (r ∷ rs) = line r ++ lines rs

-- Every column is `width` bytes wide.
abbrev pub AreAligned : ℕ → List Row → Type 0
AreAligned width [] = Unit {0}
AreAligned width (r ∷ rs) = (length r.column ≡ width) × AreAligned width rs

abbrev pub row : ℕ → List ℕ → List ℕ → Row
row width label description = record {
  column = label ++ replicate (width - length label) b' ';
  description = description;
}

row_aligned :
    (width : ℕ) (label : List ℕ)
    → length label ≤ width
    → length (label ++ replicate (width - length label) b' ') ≡ width
row_aligned width label h =
    let space : ℕ = b' ' in
    omega (
      arith,
      length-append label (replicate (width - length label) space),
      length-replicate (width - length label) space,
    )

pad_from-replicate :
    (n : ℕ) (out : StringBuilder) → (pad_from n out).buffer ≡ out.buffer ++ replicate n b' '
unfolding pad_from
pad_from-replicate zero out = sym (append-nil out.buffer)
pad_from-replicate (suc n) out =
    pad_from-replicate n (append_char out b' ')
    ∙ append_assoc out.buffer (b' ' ∷ []) (replicate n b' ')

append_help_row-line :
    (out : StringBuilder) (label description : List ℕ) (width : ℕ)
    → (append_help_row out label description width).buffer
      ≡ out.buffer ++ line (row width label description)
unfolding append_help_row
append_help_row-line out label description width = simp (pad_from-replicate, append_assoc)

max_of_bounds : (a b : ℕ) → (a ≤ max_of a b) × (b ≤ max_of a b)
unfolding max_of
max_of_bounds a b = ground arith

module _ {S : Type 0} where
  abbrev pub positional_list : ℕ → List (PositionalSpec S) → List Row
  positional_list width [] = []
  positional_list width (s ∷ ss) = row width s.name s.help ∷ positional_list width ss

  abbrev pub option_list : ℕ → List (OptionSpec S) → List Row
  option_list width [] = []
  option_list width (o ∷ os) = row width (option_label o) (option_help o) ∷ option_list width os

  pub positional_rows-lines :
      (width : ℕ) (out : StringBuilder) (ss : List (PositionalSpec S))
      → (positional_rows width out ss).buffer ≡ out.buffer ++ lines (positional_list width ss)
  unfolding positional_rows
  positional_rows-lines width out [] = sym (append-nil out.buffer)
  positional_rows-lines width out (s ∷ ss) =
      positional_rows-lines width (append_help_row out s.name s.help width) ss
      ∙ ap (λ t. t ++ lines (positional_list width ss))
          (append_help_row-line out s.name s.help width)
      ∙ append_assoc out.buffer (line (row width s.name s.help)) (lines (positional_list width ss))

  pub option_rows-lines :
      (width : ℕ) (out : StringBuilder) (os : List (OptionSpec S))
      → (option_rows width out os).buffer ≡ out.buffer ++ lines (option_list width os)
  unfolding option_rows
  option_rows-lines width out [] = sym (append-nil out.buffer)
  option_rows-lines width out (o ∷ os) =
      option_rows-lines width (append_help_row out (option_label o) (option_help o) width) os
      ∙ ap (λ t. t ++ lines (option_list width os))
          (append_help_row-line out (option_label o) (option_help o) width)
      ∙ append_assoc out.buffer (line (row width (option_label o) (option_help o)))
          (lines (option_list width os))

  pub options_width_mono : (w : ℕ) (os : List (OptionSpec S)) → w ≤ options_width w os
  unfolding options_width
  options_width_mono w [] = omega arith
  options_width_mono w (o ∷ os) = omega (
    arith,
    max_of_bounds w (length (option_label o)),
    options_width_mono (max_of w (length (option_label o))) os,
  )

  pub option_list_aligned :
      (w width : ℕ) (os : List (OptionSpec S))
      → options_width w os ≤ width
      → AreAligned width (option_list width os)
  unfolding options_width
  option_list_aligned w width [] h = tt
  option_list_aligned w width (o ∷ os) h =
      let mono = options_width_mono (max_of w (length (option_label o))) os in
      let bounds = max_of_bounds w (length (option_label o)) in
      (
        row_aligned width (option_label o) (omega arith),
        option_list_aligned (max_of w (length (option_label o))) width os h,
      )

  positionals_width_mono : (w : ℕ) (ss : List (PositionalSpec S)) → w ≤ positionals_width w ss
  unfolding positionals_width
  positionals_width_mono w [] = omega arith
  positionals_width_mono w (s ∷ ss) =
      omega (
        arith,
        max_of_bounds w (length s.name),
        positionals_width_mono (max_of w (length s.name)) ss,
      )

  pub positional_list_aligned :
      (w width : ℕ) (ss : List (PositionalSpec S))
      → positionals_width w ss ≤ width
      → AreAligned width (positional_list width ss)
  unfolding positionals_width
  positional_list_aligned w width [] h = tt
  positional_list_aligned w width (s ∷ ss) h =
      let mono = positionals_width_mono (max_of w (length s.name)) ss in
      let bounds = max_of_bounds w (length s.name) in
      (
        row_aligned width s.name (omega arith),
        positional_list_aligned (max_of w (length s.name)) width ss h,
      )
