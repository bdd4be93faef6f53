-- ===== src/CliParser/Tests.antt =====
-- A command line tool with a flag, an option and an argument.
use egl_utils_cpp.Prelude.{
  ℕ, ◌≡◌, refl, Bool, true, false, Option, some, none, List, [], ◌∷◌, ◌++◌, ◌↔◌, codes, str_eq,
}
use egl_utils_cpp.Prelude.Int.{ℤ, pos, negsuc}
use egl_utils_cpp.StringBuilder.{view, append_integer, seeded}
use egl_utils_cpp.StringBuilder.Decimal.{integer}
use egl_utils_cpp.CliParser.Types.{
  CliParser, create, is_ok, OptionSpec, PositionalSpec, blank, help_spec, failure, missing_value,
  invalid_value, missing_required,
}
use egl_utils_cpp.CliParser.Register.{registered, find_option, add_flag, add_option, add_positional}
use egl_utils_cpp.CliParser.Parse.{Run, parse_short, raise_flag, check_required}
use egl_utils_cpp.CliParser.Loop.{begin, parse, loop, round}
use egl_utils_cpp.CliParser.Help.{help, label_column_width}
use egl_utils_cpp.CliParser.Columns.{AreAligned, positional_list, option_list}
use egl_utils_cpp.CliParser.HelpText.{sections, help_aligned}
use egl_utils_cpp.CliParser.Convert.{
  signed, bits32, cli_parse_integer, cli_parse_string, digits_value, write_to,
}
use egl_utils_cpp.CliParser.Items.{
  cluster, cluster_value, attached, perform, perform_all, place_all, AreItems, IsShort,
}
use egl_utils_cpp.CliParser.Valid.{
  Declaration, flag, value, declare, declare_all, IsValid, declare_all-IsValid,
}
use egl_utils_cpp.CliParser.Required.{OptionsSeen, PositionalsSeen, check_required_iff}
use egl_utils_cpp.CliParser.RoundTrip.{cli_parse_integer-append_integer}
use egl_utils_cpp.CliParser.Stops.{HasLong, Stops, long_invalid}
use egl_utils_cpp.CliParser.Complete.{
  CommandLine, spell_line, perform_line, parse-spell_line, parse-stop,
}

record Settings : Type 0 where
  verbose : Bool
  count : ℤ
  input : List ℕ

abbrev defaults : Settings
defaults = record { verbose = false; count = pos 1; input = [] }

abbrev set_verbose : Settings → Settings
set_verbose s = record s { verbose = true }

abbrev read_count : List ℕ → Settings → Option Settings
read_count = write_to (cli_parse_integer (signed bits32)) (λ v s. record s { count = v })

abbrev read_input : List ℕ → Settings → Option Settings
read_input = write_to cli_parse_string (λ v s. record s { input = v })

abbrev declarations : List (Declaration Settings)
declarations =
    flag (codes "verbose") b'v' (codes "say more") set_verbose
    ∷ value (codes "count") b'n' (codes "how many") read_count true (codes "N")
    ∷ Declaration.positional (codes "input") (codes "a file") read_input true
    ∷ []

abbrev verbose_spec : OptionSpec Settings
verbose_spec = record blank {
  long_name = codes "verbose";
  short_name = b'v';
  help = codes "say more";
  set_flag = set_verbose;
}

abbrev count_spec : OptionSpec Settings
count_spec = record blank {
  long_name = codes "count";
  short_name = b'n';
  help = codes "how many";
  value_name = codes "N";
  takes_value = true;
  required = true;
  assign = read_count;
}

abbrev input_spec : PositionalSpec Settings
input_spec = record {
  name = codes "input";
  help = codes "a file";
  required = true;
  seen = false;
  assign = read_input;
}

abbrev tool : CliParser Settings
tool = record (create (codes "tool") (codes "a tool")) {
  options = help_spec ∷ verbose_spec ∷ count_spec ∷ [];
  positionals = input_spec ∷ [];
}

declared : declare_all (create (codes "tool") (codes "a tool")) declarations ≡ registered tool
unfolding declare_all declare add_flag add_option add_positional find_option str_eq
declared = refl

declare_all-IsValid_example : IsValid tool
declare_all-IsValid_example =
    declare_all-IsValid (codes "tool") (codes "a tool") declarations declared

abbrev line : CommandLine
line = record {
  items = cluster_value (1 ∷ []) 2 attached (codes "12") ∷ [];
  behind = some (codes "-x" ∷ []);
}

spelled : spell_line tool.options line ≡ codes "-vn12" ∷ codes "--" ∷ codes "-x" ∷ []
spelled = refl

abbrev parsed : Run Settings
parsed = record {
  options =
      help_spec ∷ record verbose_spec { seen = true } ∷ record count_spec { seen = true } ∷ [];
  positionals = record input_spec { seen = true } ∷ [];
  positional_index = 1;
  vars = record { verbose = true; count = pos 12; input = codes "-x" };
  rest = [];
}

performed : perform_line line (begin tool defaults []) ≡ some parsed
unfolding perform_line begin perform_all perform place_all write_to cli_parse_integer digits_value
    raise_flag
performed = refl

verbose_flag : IsShort tool.options false 1
verbose_flag = record {
  option = verbose_spec;
  place = refl;
  no_help = refl;
  kind = refl;
  short = refl;
  plain = refl;
}

line_items : AreItems tool.options line.items
line_items =
    let n : IsShort tool.options true 2 = record {
      option = count_spec;
      place = refl;
      no_help = refl;
      kind = refl;
      short = refl;
      plain = refl;
    } in
    (((verbose_flag, tt), n, refl), tt)

parse-spell_line_example : parse tool defaults (codes "-vn12" ∷ codes "--" ∷ codes "-x" ∷ []) ≡ (
  check_required parsed,
  record tool { options = parsed.options; positionals = parsed.positionals },
  parsed.vars,
)
parse-spell_line_example =
    parse-spell_line tool defaults line declare_all-IsValid_example line_items performed

check_required_iff_example :
    (is_ok (check_required parsed) ≡ true)
    ↔ (OptionsSeen parsed.options × PositionalsSeen parsed.positionals)
check_required_iff_example = check_required_iff parsed

help_aligned_example :
    (help tool ≡ sections tool)
    × AreAligned
        (label_column_width tool)
        (positional_list (label_column_width tool) tool.positionals)
    × AreAligned (label_column_width tool) (option_list (label_column_width tool) tool.options)
help_aligned_example = help_aligned tool

cli_parse_integer-append_integer_example :
    (view (append_integer (seeded (codes "n=")) (negsuc 11)) ≡ codes "n=" ++ integer (negsuc 11))
    × (cli_parse_integer (signed bits32) (integer (negsuc 11)) ≡ some (negsuc 11))
cli_parse_integer-append_integer_example =
    cli_parse_integer-append_integer (signed bits32) (negsuc 11) (seeded (codes "n=")) refl

-- A run that ends with an error.
no_value :
    (parse tool defaults (codes "-n" ∷ [])).0
    ≡ failure missing_value (codes "option '-n' requires a value")
unfolding parse loop begin str_eq round parse_short find_option
no_value = refl

not_required :
    (parse tool defaults (codes "-n3" ∷ [])).0
    ≡ failure missing_required (codes "missing required argument 'input'")
unfolding parse loop begin str_eq write_to cli_parse_integer round parse_short find_option
    check_required
not_required = refl

-- A value that does not convert, behind a flag that was raised.
abbrev stopped : Run Settings
stopped = record {
  options = help_spec ∷ record verbose_spec { seen = true } ∷ count_spec ∷ [];
  positionals = input_spec ∷ [];
  positional_index = 0;
  vars = record defaults { verbose = true };
  rest = [];
}

count_name : HasLong tool.options 2 count_spec
count_name = record {
  place = refl;
  long = refl;
  plain = (refl, (refl, (refl, (refl, (refl, tt)))));
}

refused : read_count (codes "x") stopped.vars ≡ none
unfolding write_to cli_parse_integer
refused = refl

refuses :
    Stops tool.options stopped
      (codes "--count=x")
      (codes "-n1" ∷ [])
      (failure invalid_value (codes "invalid value 'x' for option '--count'"))
      stopped
refuses = long_invalid 2 count_spec (codes "x") (codes "-n1" ∷ []) count_name refl refl refused

raised : perform_all (cluster 1 [] ∷ []) (begin tool defaults []) ≡ some stopped
unfolding begin perform_all perform raise_flag
raised = refl

parse-stop_example : parse tool defaults (codes "-v" ∷ codes "--count=x" ∷ codes "-n1" ∷ []) ≡ (
  failure invalid_value (codes "invalid value 'x' for option '--count'"),
  record tool { options = stopped.options; positionals = stopped.positionals },
  stopped.vars,
)
parse-stop_example =
    parse-stop tool defaults (cluster 1 [] ∷ []) (codes "--count=x") (codes "-n1" ∷ [])
      declare_all-IsValid_example ((verbose_flag, tt), tt) raised refuses
