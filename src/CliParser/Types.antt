-- ===== src/CliParser/Types.antt =====
-- The data of `CliParser`. A variable of the caller lies in the store `S`: a flag sets one, and a value
-- that converts is written to one. A text is the list of its bytes.
use egl_utils_cpp.Prelude.{ℕ, Bool, true, false, Option, none, List, [], ◌∷◌, codes}

pub data CliError : Type 0 where
  none_error unknown_option missing_value unexpected_value : CliError
  invalid_value missing_required unexpected_positional : CliError

pub data Status : Type 0 where
  succeeded help_requested error_status : Status

pub record ParseResult : Type 0 where
  pub status : Status
  pub error : CliError
  pub message : List ℕ

abbrev pub success : ParseResult
success = record { status = succeeded; error = none_error; message = [] }

abbrev pub help_result : ParseResult
help_result = record { status = help_requested; error = none_error; message = [] }

abbrev pub failure : CliError → List ℕ → ParseResult
failure code message = record { status = error_status; error = code; message = message }

abbrev pub is_success : Status → Bool
is_success succeeded = true
is_success _ = false

-- `ok()` and `operator bool`.
abbrev pub is_ok : ParseResult → Bool
is_ok r = is_success r.status

-- `short_name` is 0 where there is none.
pub record OptionSpec (S : Type 0) : Type 0 where
  pub long_name : List ℕ
  pub short_name : ℕ
  pub help : List ℕ
  pub value_name : List ℕ
  pub takes_value : Bool
  pub required : Bool
  pub is_help : Bool
  pub seen : Bool
  pub assign : List ℕ → S → Option S
  pub set_flag : S → S

pub record PositionalSpec (S : Type 0) : Type 0 where
  pub name : List ℕ
  pub help : List ℕ
  pub required : Bool
  pub seen : Bool
  pub assign : List ℕ → S → Option S

pub record CliParser (S : Type 0) : Type 0 where
  pub program_name : List ℕ
  pub description : List ℕ
  pub options : List (OptionSpec S)
  pub positionals : List (PositionalSpec S)

module _ {S : Type 0} where
  -- A default `OptionSpec`. The members that its kind of option never calls do nothing.
  abbrev pub blank : OptionSpec S
  blank = record {
    long_name = [];
    short_name = 0;
    help = [];
    value_name = codes "VALUE";
    takes_value = false;
    required = false;
    is_help = false;
    seen = false;
    assign = λ text s. none;
    set_flag = λ s. s;
  }

  abbrev pub help_spec : OptionSpec S
  help_spec = record blank {
    long_name = codes "help";
    short_name = b'h';
    help = codes "Show this help message and exit.";
    is_help = true;
  }

  -- The constructor.
  abbrev pub create : List ℕ → List ℕ → CliParser S
  create program_name description = record {
    program_name = program_name;
    description = description;
    options = help_spec ∷ [];
    positionals = [];
  }
