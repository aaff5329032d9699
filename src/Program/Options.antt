-- ===== src/Program/Options.antt =====
-- service/program.cpp: how `configureImpl` sets Boost.Program_options up, and what it takes from it.
use libservice.Prelude.{
  ℕ, ℤ, pos, negsuc, Text, lit, text_eq, Bool, false, ◌||◌, Option, none, some, List, [], ◌∷◌, ◌++◌,
  ◌/◌, ◌%◌, ◌==◌, is_empty, if◌then◌else◌,
}
use libservice.Unrecognized.{ParsedOption, ConfigOptions, UnrecognizedOptions}
use libservice.Os.{M}
use libservice.Program.{Texts, text_lt}

-- The flags of a program, `DISABLE_CONFIG_HELP` to `SHOW_EXPANDED_COMMAND_LINE`.
abbrev pub has_flag : ℕ → ℕ → Bool
has_flag mask flags = flags / mask % 2 == 1

abbrev pub disable_config_help : ℕ
disable_config_help = 1

abbrev pub enable_unrecognized_options : ℕ
enable_unrecognized_options = 2

abbrev pub enable_config_unrecognized_options : ℕ
enable_config_unrecognized_options = 16

abbrev pub unrecognized : ℕ → Bool
unrecognized flags =
    has_flag enable_unrecognized_options flags || has_flag enable_config_unrecognized_options flags

-- An extra parser: the name and the value of an argument; an empty name is no answer.
abbrev pub ExtraParser : Type 0
ExtraParser = Text → Text × Text

-- `substr(7)` where the first seven characters are those of the prefix.
abbrev pub after : Text → Text → Option Text
after [] s = some s
after (c ∷ p) [] = none
after (c ∷ p) (d ∷ s) = let rest = after p s in if c == d then rest else none

abbrev pub help_value : Text → Text
help_value value = if is_empty value then lit " " else value

-- `@file` names a response file. The front of an empty argument is taken to be the zero byte that ends
-- it, as an unchecked `front` reads.
unfoldable pub response_file : Text → Text × Text
response_file [] = ([], [])
response_file (c ∷ s) = if c == b'@' then (lit "response-file", s) else ([], [])

unfoldable pub special_parser : ExtraParser
unfolding response_file
special_parser s = elim (after (lit "--help-") s) [
  | some value ↦ (lit "#help", help_value value)
  | none ↦ response_file s
]

-- The parser that `createParser` installs: the program's own is asked after the special one.
unfoldable pub extra_parser : Option ExtraParser → ExtraParser
unfolding special_parser
extra_parser none s = special_parser s
extra_parser (some extra) s = let res = special_parser s in if is_empty res.0 then extra s else res

-- What `createParser` is given: whether response files are known, whether other options may be
-- unknown, and the extra parser.
pub record Parser : Type 0 where
  pub response_files : Bool
  pub allow_unregistered : Bool
  pub extra : ExtraParser

unfoldable pub create_parser : Bool → ℕ → Option ExtraParser → Parser
unfolding extra_parser
create_parser full flags extra = record {
  response_files = full;
  allow_unregistered = has_flag enable_unrecognized_options flags;
  extra = extra_parser extra;
}

-- Boost.Program_options, with a type of variable maps; `none` is an exception of its own.
pub record Po (V : Type 0) : Type 0 where
  pub empty : V
  pub store : List ParsedOption → V → Option V
  pub count : Text → V → Bool
  pub texts : Text → V → List Text
  pub flag : Text → V → Bool
  pub parse_args : Parser → List Text → Option (List ParsedOption)
  pub parse_file : Bool → Text → Option (List ParsedOption)
  pub notify : V → Bool
  pub name_for_position : ℕ → Text
  -- `boost::tokenizer` with separators " \n\r", and the name of an archived log file.
  pub tokens : Text → List Text
  pub archived : Text → ℤ → Text

-- `UnrecognizedParser`, whose options and positional arguments are in its two parsers.
pub record UnrecognizedParser (V : Type 0) : Type 0 where
  pub parse_cmdline : List Text → Option (List ParsedOption)
  pub parse_config : List Text → Option (List ParsedOption)
  pub configure : Option (V → M (Unit {0}))

-- The virtual functions of the program that `configureImpl` calls, and what its constructor and
-- `defaultConfigFile` left.
pub record Derived (V : Type 0) : Type 0 where
  pub flags : ℕ
  pub default_config_file : Option Text
  pub extra_parser : Option ExtraParser
  pub texts : V → Texts
  pub licence_check : M (Unit {0})
  pub pre_config_hook : V → M (Unit {0})
  pub configure_unrecognized : V → UnrecognizedOptions → M (Option (UnrecognizedParser V))
  pub pre_notify_hook : V → M (Unit {0})
  pub configure : V → M (Unit {0})

abbrev pub extra_options : Text
extra_options = lit "\n"

-- The tokens that nobody declared: unregistered options, and positional arguments of no name.
unfoldable pub is_unknown : (ℕ → Text) → ParsedOption → Bool
is_unknown name opt =
    opt.unregistered
    || elim opt.position_key [ pos n ↦ text_eq (name n) extra_options | negsuc n ↦ false ]

unfoldable pub unrecognized_cmdline : (ℕ → Text) → List ParsedOption → List Text
unfolding is_unknown
unrecognized_cmdline name [] = []
unrecognized_cmdline name (opt ∷ parsed) =
    let rest = unrecognized_cmdline name parsed in
    if is_unknown name opt then opt.original_tokens ++ rest else rest

-- A map is read in the order of its keys.
unfoldable pub insert_item : Text × List Text → ConfigOptions → ConfigOptions
insert_item item [] = item ∷ []
insert_item item (i ∷ items) =
    let rest = insert_item item items in if text_lt i.0 item.0 then i ∷ rest else item ∷ i ∷ items

unfoldable pub in_order : ConfigOptions → ConfigOptions
unfolding insert_item
in_order [] = []
in_order (item ∷ items) = insert_item item (in_order items)

abbrev pub item_args : Text → List Text → List Text
item_args key [] = []
item_args key (v ∷ vs) = (lit "--" ++ key) ∷ v ∷ item_args key vs

unfoldable pub map_args : ConfigOptions → List Text
map_args [] = []
map_args ((key, vs) ∷ items) = item_args key vs ++ map_args items

-- The options of a configuration file as a command line.
unfoldable pub config_args : ConfigOptions → List Text
unfolding in_order map_args
config_args co = map_args (in_order co)
