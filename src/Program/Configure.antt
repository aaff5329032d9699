-- ===== src/Program/Configure.antt =====
-- service/program.cpp, `configureImpl` and `configure`: from the arguments to the configured program.
use libservice.Prelude.{
  pos, Text, lit, Bool, true, false, Option, none, some, List, [], ◌∷◌, ◌++◌, if◌then◌else◌,
}
use libservice.Os.{
  Env, Output, immediate_exit, po_error, print, M, ◌>>=◌, ◌>>◌, pure, throw, tell, catch_std,
}
use libservice.Unrecognized.{ParsedOption, ConfigOptions, UnrecognizedOptions}
use libservice.Program.{Requests, Ending, exits, unknown, goes_on, dispatch}
use libservice.Program.Options.{
  Po, Derived, Parser, UnrecognizedParser, create_parser, has_flag, unrecognized,
  enable_config_unrecognized_options, unrecognized_cmdline, config_args,
}
use libservice.Program.Files.{
  accepted, parse_response_files, config_files, load_configs, set_up_log,
}

abbrev pub no_options : UnrecognizedOptions
no_options = record { cmdline = []; config = []; seen_config_keys = [] }

-- What is left of a run of `configureImpl`: its result, `configFiles_` and `logFile_`.
pub record Configured (V : Type 0) : Type 0 where
  pub vm : V
  pub config_files : List Text
  pub log_file : Option Text

module _ {V : Type 0} (env : Env) (po : Po V) (derived : Derived V) where
  abbrev pub kept : List ParsedOption → List ParsedOption → List ParsedOption
  kept all parsed = if unrecognized derived.flags then all ++ parsed else all

  -- The function `parse`: the options are stored, and kept where unknown ones are collected.
  unfoldable pub parse : Parser → List Text → V × List ParsedOption → M (V × List ParsedOption)
  parse parser args s = do
    parsed ← accepted (po.parse_args parser args)
    vm ← accepted (po.store parsed s.0)
    pure (vm, kept s.1 parsed)

  unfoldable pub parse_response : Bool → V × List ParsedOption → M (V × List ParsedOption)
  unfolding parse
  parse_response false s = pure s
  parse_response true s = do
    args ← parse_response_files env po (po.texts (lit "response-file") s.0)
    parse (create_parser false derived.flags none) args s

  unfoldable pub parse_files : V × List ParsedOption → M (V × List ParsedOption)
  unfolding parse_response
  parse_files s = parse_response (po.count (lit "response-file") s.0) s

  unfoldable pub parse_command_line : List Text → M (V × List ParsedOption)
  unfolding parse parse_files
  parse_command_line args = do
    s ← parse (create_parser true derived.flags derived.extra_parser) args (po.empty, [])
    parse_files s

  abbrev pub requests : V → Requests
  requests vm = record {
    version = po.count (lit "version") vm;
    licence = po.count (lit "licence") vm;
    license = po.count (lit "license") vm;
    help = po.count (lit "help") vm;
    helps = if po.count (lit "#help") vm then po.texts (lit "#help") vm else [];
  }

  abbrev pub end_by : List Output → Ending → M (Unit {0})
  end_by out exits = do tell (print out); throw (immediate_exit (pos 0))
  end_by out (unknown what) = do tell (print out); throw po_error
  end_by out goes_on = pure tt

  -- Version, licence and help.
  unfoldable pub answer_requests : V → M (Unit {0})
  answer_requests vm =
      let printed = dispatch (derived.texts vm) (requests vm) in
      end_by printed.output printed.ending

  -- The undeclared options of each configuration file, parsed like a command line.
  unfoldable pub reparse_configs : UnrecognizedParser V → List ConfigOptions → V → M V
  reparse_configs p [] vm = pure vm
  reparse_configs p (co ∷ config) vm = do
    parsed ← accepted (p.parse_config (config_args co))
    next ← accepted (po.store parsed vm)
    reparse_configs p config next

  unfoldable pub reparse : UnrecognizedParser V → UnrecognizedOptions → V → M V
  unfolding reparse_configs
  reparse p un vm = do
    parsed ← accepted (p.parse_cmdline un.cmdline)
    next ← accepted (po.store parsed vm)
    reparse_configs p un.config next

  -- The parser that the program gave for what nobody declared, if it gave one.
  unfoldable pub use_parser :
      V
      → UnrecognizedOptions
      → Option (UnrecognizedParser V)
      → M (V × Option (UnrecognizedParser V))
  unfolding reparse
  use_parser vm un none = pure (vm, none)
  use_parser vm un (some p) = do next ← reparse p un vm; pure (next, some p)

  unfoldable pub collect_unrecognized :
      Bool → V → UnrecognizedOptions → M (V × Option (UnrecognizedParser V))
  unfolding use_parser
  collect_unrecognized false vm un = pure (vm, none)
  collect_unrecognized true vm un = do r ← derived.configure_unrecognized vm un; use_parser vm un r

  -- The program looks at what nobody declared, and may give a parser for it.
  unfoldable pub process_unrecognized :
      List ParsedOption → V × UnrecognizedOptions → M (V × Option (UnrecognizedParser V))
  unfolding collect_unrecognized
  process_unrecognized parsed s =
      collect_unrecognized (unrecognized derived.flags) s.0
        (record (s.1) { cmdline = unrecognized_cmdline po.name_for_position parsed })

  abbrev pub configure_parser : Option (UnrecognizedParser V) → V → M (Unit {0})
  configure_parser none vm = pure tt
  configure_parser (some p) vm = elim p.configure [ none ↦ pure tt | some f ↦ f vm ]

  abbrev pub notified : Bool → M (Unit {0})
  notified true = pure tt
  notified false = throw po_error

  -- The end of `configureImpl`: the hook before the notification, and the program's `configure`.
  unfoldable pub notify_configured : V × Option (UnrecognizedParser V) → M V
  notify_configured s = do
    derived.pre_notify_hook s.0
    notified (po.notify s.0)
    derived.configure s.0
    configure_parser s.1 s.0
    pure s.0

  -- What is done with the command line alone.
  unfoldable pub before_files : List Text → M (V × List ParsedOption)
  unfolding parse_command_line answer_requests
  before_files args = do
    s ← parse_command_line args
    answer_requests s.0
    derived.licence_check
    derived.pre_config_hook s.0
    pure s

  -- What follows the reading of the configuration files.
  unfoldable pub after_files :
      List ParsedOption → List Text → V × UnrecognizedOptions → M (Configured V)
  unfolding process_unrecognized notify_configured
  after_files parsed files loaded = do
    log ← set_up_log env po loaded.0
    u ← process_unrecognized parsed loaded
    vm ← notify_configured u
    pure (record { vm = vm; config_files = files; log_file = log })

  abbrev pub keeps_unknown : Bool
  keeps_unknown = has_flag enable_config_unrecognized_options derived.flags

  abbrev pub files_of : V → List Text
  files_of = config_files env po derived.default_config_file

  unfoldable pub with_files : V × List ParsedOption → M (Configured V)
  unfolding after_files
  with_files s = do
    loaded ← load_configs env po keeps_unknown (files_of s.0) (s.0, no_options)
    after_files s.1 (files_of s.0) loaded

  unfoldable pub configure_impl : List Text → M (Configured V)
  unfolding before_files with_files
  configure_impl args = do s ← before_files args; with_files s

  -- `configure`: any exception but `immediate_exit` becomes the exit code 1.
  unfoldable pub configure : List Text → M (Configured V)
  unfolding configure_impl
  configure args = catch_std (configure_impl args) (throw (immediate_exit (pos 1)))
