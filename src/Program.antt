-- ===== src/Program.antt =====
-- service/program.cpp, `configureImpl`: the options that print something and end the program.
pub mod Help
pub mod Options
pub mod Files
pub mod Configure
pub mod Stored
pub mod Precedence
pub mod Sources
pub mod Quietness
pub mod Stopping
pub mod Starting
pub mod Defaults
pub mod Locale
pub mod Declarations
pub mod Accepted
use libservice.Prelude.{
  ℕ, Text, lit, text_eq, Bool, true, false, not, ◌||◌, Option, none, some, List, [], ◌∷◌, ◌++◌, ltb,
  ◌==◌, is_empty, if◌then◌else◌,
}
use libservice.Os.{
  Output, version_info, copyright, licence, program_name, cmdline_options, config_generic,
  config_options, newline, licensed_to, helper,
}

-- What the command line asks for: `#help` holds the names of `--help-NAME`.
pub record Requests : Type 0 where
  pub version : Bool
  pub licence : Bool
  pub license : Bool
  pub help : Bool
  pub helps : List Text

-- The program's own texts: whom it is licensed to, whether the configuration options are hidden, and
-- the helper, which tells whether it knows a help and lists those that it knows.
pub record Texts : Type 0 where
  pub licensee : Text
  pub disable_config_help : Bool
  pub knows : Text → Bool
  pub list : List Text

pub data Ending : Type 0 where
  -- `immediateExit(EXIT_SUCCESS)`
  exits : Ending
  -- `unknown_option`
  unknown : Text → Ending
  goes_on : Ending

pub record Printed : Type 0 where
  pub output : List Output
  pub ending : Ending

-- `operator<` of two strings.
abbrev pub text_lt : Text → Text → Bool
text_lt s [] = false
text_lt [] (y ∷ ys) = true
text_lt (x ∷ xs) (y ∷ ys) = let rest = text_lt xs ys in if x == y then rest else ltb x y

-- `std::set<std::string>`, an ascending list.
abbrev pub set_insert : Text → List Text → List Text
set_insert s [] = s ∷ []
set_insert s (t ∷ ts) =
    let rest = set_insert s ts in
    if text_eq s t then t ∷ ts else (if text_lt s t then s ∷ t ∷ ts else t ∷ rest)

abbrev pub set_of : List Text → List Text → List Text
set_of [] set = set
set_of (s ∷ ss) set = set_of ss (set_insert s set)

abbrev pub set_has : Text → List Text → Bool
set_has s [] = false
set_has s (t ∷ ts) = text_eq t s || set_has s ts

abbrev pub set_erase : Text → List Text → List Text
set_erase s [] = []
set_erase s (t ∷ ts) = let rest = set_erase s ts in if text_eq t s then rest else t ∷ rest

abbrev pub is_nil {ℓ} : {A : Type ℓ} → List A → Bool
is_nil [] = true
is_nil (x ∷ xs) = false

abbrev pub printing : List Output → Printed → Printed
printing out p = record p { output = out ++ p.output }

-- The loop over the helps that were asked for: the first that is not known is an error.
unfoldable pub print_helps : Texts → List Text → Printed
print_helps texts [] = record { output = []; ending = exits }
print_helps texts (what ∷ helps) =
    let rest = print_helps texts helps in
    if texts.knows what
    then printing (helper what ∷ newline ∷ []) rest
    else record { output = helper what ∷ []; ending = unknown what }

abbrev pub listed : List Text → List Output
listed [] = []
listed (h ∷ hs) = newline ∷ helper h ∷ listed hs

-- What `--help` prints, and what `--help-all` prints after it.
abbrev pub cmdline_help : List Output
cmdline_help = program_name ∷ helper [] ∷ cmdline_options ∷ helper (lit "@cmdline") ∷ []

abbrev pub config_help : Texts → List Output
config_help texts =
    newline
    ∷ config_generic
    ∷ (if texts.disable_config_help then [] else config_options ∷ helper (lit "@config") ∷ [])

-- `--help-all` without another help prints every help that is listed.
unfoldable pub help_all : Texts → List Text → Printed
unfolding print_helps
help_all texts helps =
    let others = print_helps texts helps in
    printing (cmdline_help ++ config_help texts) (
      if is_nil helps
      then record { output = listed texts.list; ending = exits }
      else printing (newline ∷ []) others)

unfoldable pub help_cmdline : Texts → List Text → Printed
unfolding print_helps
help_cmdline texts helps =
    let others = print_helps texts helps in
    printing cmdline_help (
      if is_nil helps
      then record { output = []; ending = exits }
      else printing (newline ∷ []) others)

unfoldable pub print_help : Texts → Bool → List Text → Printed
unfolding help_all help_cmdline print_helps
print_help texts has_help helps =
    if set_has (lit "all") helps
    then help_all texts (set_erase (lit "all") helps)
    else (if has_help then help_cmdline texts helps else print_helps texts helps)

abbrev pub print_licence : Texts → List Output
print_licence texts =
    copyright ∷ (if is_empty texts.licensee then [] else licensed_to texts.licensee ∷ [])
    ++ licence ∷ []

unfoldable pub dispatch : Texts → Requests → Printed
unfolding print_help
dispatch texts asked =
    let helps = set_of asked.helps [] in
    if asked.version
    then record { output = version_info ∷ copyright ∷ []; ending = exits }
    else (if asked.licence || asked.license
        then record { output = print_licence texts; ending = exits }
        else (if asked.help || not (is_nil helps)
            then print_help texts asked.help helps
            else record { output = []; ending = goes_on }))

-- `configure`: the exit code with which it leaves, or none when the program goes on.
unfoldable pub exit_code : Ending → Option ℕ
exit_code exits = some 0
exit_code (unknown what) = some 1
exit_code goes_on = none
