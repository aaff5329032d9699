-- ===== src/Program/Declarations.antt =====
-- service/program.cpp, `configureImpl`: the options that are declared, with those of a service from
-- service/service.cpp and service/detail/signalhandler.cpp, and where each of them is accepted.
use libservice.Prelude.{
  ℕ, Text, lit, text_eq, Bool, true, false, not, ◌&&◌, ◌||◌, Option, none, some, List, [], ◌∷◌,
  ◌++◌, if◌then◌else◌,
}
use libservice.Program.Options.{has_flag, enable_unrecognized_options, extra_options}

-- What an option takes: nothing, or a value, which it may have without being given.
pub data Value : Type 0 where
  no_argument argument default_argument : Value

-- `add_options()(...)`: the long name, the letter, and the value.
pub record Declaration : Type 0 where
  pub long : Text
  pub short : Option ℕ
  pub value : Value

abbrev pub flag : Text → Declaration
flag name = record { long = name; short = none; value = no_argument }

abbrev pub with_value : Text → Declaration
with_value name = record { long = name; short = none; value = argument }

abbrev pub with_default : Text → Declaration
with_default name = record { long = name; short = none; value = default_argument }

abbrev pub letter : ℕ → Declaration → Declaration
letter c d = record d { short = some c }

-- `configuration` of the program: the options of the command line, and those of the files.
pub record Declared : Type 0 where
  pub cmdline : List Declaration
  pub config : List Declaration

abbrev pub help_flags : List Text → List Declaration
help_flags [] = []
help_flags (h ∷ hs) = flag (lit "help-" ++ h) ∷ help_flags hs

-- `genericCmdline` and `genericConfig`, to which the caller may have added: `own` is what it added.
unfoldable pub generic_cmdline : List Declaration → List Text → List Declaration
generic_cmdline own helps =
    own
    ++ flag (lit "help")
      ∷ letter b'v' (flag (lit "version"))
      ∷ flag (lit "licence")
      ∷ flag (lit "license")
      ∷ letter b'f' (with_value (lit "config"))
      ∷ flag (lit "help-all")
      ∷ help_flags helps

unfoldable pub generic_config : List Declaration → List Declaration
generic_config own =
    own
    ++ with_default (lit "log.mask")
      ∷ with_value (lit "log.file")
      ∷ with_default (lit "log.console")
      ∷ with_default (lit "log.dumpConfig")
      ∷ with_default (lit "log.timePrecision")
      ∷ flag (lit "log.file.truncate")
      ∷ flag (lit "log.file.archive")
      ∷ []

-- The options of a service: `CtrlConfig::configuration`, `Service::Config::configuration`, and those of
-- `Service::operator()` before them.
unfoldable pub ctrl_configuration : Declared → Declared
ctrl_configuration d = record {
  cmdline = d.cmdline ++ with_value (lit "ctrl") ∷ [];
  config =
      d.config
      ++ with_value (lit "ctrl.user")
        ∷ with_value (lit "ctrl.group")
        ∷ with_value (lit "ctrl.mode")
        ∷ [];
}

unfoldable pub persona_configuration : Declared → Declared
persona_configuration d = record d {
  config =
      d.config
      ++ with_value (lit "service.user")
        ∷ with_value (lit "service.group")
        ∷ with_default (lit "service.loginEnv")
        ∷ [];
}

unfoldable pub service_options : Declared
unfolding ctrl_configuration persona_configuration
service_options = persona_configuration (
    ctrl_configuration (record {
      cmdline =
          letter b'd' (flag (lit "daemonize"))
          ∷ flag (lit "daemonize-nochdir")
          ∷ flag (lit "daemonize-noclose")
          ∷ with_value (lit "pidfile")
          ∷ letter b's' (with_value (lit "signal"))
          ∷ [];
      config = [];
    }))

-- `hiddenCmdline`, `responseFile` and `extra`.
abbrev pub hidden_cmdline : List Declaration
hidden_cmdline = with_value (lit "#help") ∷ []

abbrev pub response_file_options : List Declaration
response_file_options = with_value (lit "response-file") ∷ []

abbrev pub extra : ℕ → List Declaration
extra flags =
    if has_flag enable_unrecognized_options flags then with_value extra_options ∷ [] else []

-- A program: its flags, the helps it lists, the generic options of its kind, and its own.
module _ (flags : ℕ) (helps : List Text) (generic own : Declared) where
  -- `all` is accepted in response files, `full` on the command line, `configs` in configuration files.
  unfoldable pub all : List Declaration
  unfolding generic_cmdline generic_config
  all =
      generic_cmdline generic.cmdline helps
      ++ own.cmdline
      ++ generic_config generic.config
      ++ own.config
      ++ hidden_cmdline
      ++ extra flags

  unfoldable pub full : List Declaration
  unfolding all
  full = all ++ response_file_options

  unfoldable pub configs : List Declaration
  unfolding generic_config
  configs = generic_config generic.config ++ own.config

abbrev pub declares : Text → List Declaration → Bool
declares name [] = false
declares name (d ∷ ds) = text_eq name d.long || declares name ds

-- No name is declared twice.
abbrev pub are_distinct : List Declaration → Bool
are_distinct [] = true
are_distinct (d ∷ ds) = not (declares d.long ds) && are_distinct ds
