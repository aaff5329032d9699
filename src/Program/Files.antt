-- ===== src/Program/Files.antt =====
-- service/program.cpp, `configureImpl`: the files it reads, and the log that it sets up.
use libservice.Prelude.{
  pos, Text, lit, Bool, true, false, Option, none, some, List, [], ◌∷◌, ◌++◌, if◌then◌else◌,
}
use libservice.Os.{
  Env, immediate_exit, po_error, read_response_file, read_config, set_log_mask, log_file,
  log_file_truncate, log_console, log_time_precision, last_write_time, rename, M, ◌>>=◌, ◌>>◌, pure,
  throw, ask, tell,
}
use libservice.Os
use libservice.Unrecognized.{ParsedOption, UnrecognizedOptions}
use libservice.Unrecognized
use libservice.Program.Options.{Po}

-- An answer of Boost.Program_options, or its exception.
abbrev pub accepted {ℓ} : {A : Type ℓ} → Option A → M A
accepted none = throw po_error
accepted (some a) = pure a

-- A read past the end of the tokens, from `add`.
abbrev pub defined {ℓ} : {A : Type ℓ} → Option A → M A
defined none h = Os.undefined h
defined (some a) h = Os.done a h

-- `count` of an option, and its value.
abbrev pub first_text : List Text → Text
first_text [] = []
first_text (s ∷ ss) = s

module _ {V : Type 0} (env : Env) (po : Po V) where
  -- `parseResponseFiles`: the arguments of all files; a file that cannot be read ends the program.
  abbrev pub tokens_of : Option Text → M (List Text)
  tokens_of none = throw (immediate_exit (pos 1))
  tokens_of (some text) = pure (po.tokens text)

  unfoldable pub read_response : Text → M (List Text)
  read_response file = do r ← ask (read_response_file file) (λ h. env.contents h file); tokens_of r

  unfoldable pub parse_response_files : List Text → M (List Text)
  unfolding read_response
  parse_response_files [] = pure []
  parse_response_files (file ∷ files) = do
    args ← read_response file
    rest ← parse_response_files files
    pure (args ++ rest)

  -- The configuration files: those of the command line, or the default one, made absolute.
  unfoldable pub absolutes : List Text → List Text
  absolutes [] = []
  absolutes (f ∷ fs) = env.absolute f ∷ absolutes fs

  abbrev pub default_files : Option Text → List Text
  default_files none = []
  default_files (some f) = f ∷ []

  unfoldable pub config_files : Option Text → V → List Text
  unfolding absolutes
  config_files default vm =
      absolutes
        (if po.count (lit "config") vm then po.texts (lit "config") vm else default_files default)

  -- One configuration file: what is stored already wins.
  unfoldable pub add_config : Bool → List ParsedOption → UnrecognizedOptions → M UnrecognizedOptions
  add_config keep parsed un = if keep then defined (Unrecognized.add parsed un) else pure un

  unfoldable pub load_text : Bool → Text → V × UnrecognizedOptions → M (V × UnrecognizedOptions)
  unfolding add_config
  load_text keep text s = do
    parsed ← accepted (po.parse_file keep text)
    vm ← accepted (po.store parsed s.0)
    un ← add_config keep parsed s.1
    pure (vm, un)

  unfoldable pub load_read :
      Bool → V × UnrecognizedOptions → Option Text → M (V × UnrecognizedOptions)
  unfolding load_text
  load_read keep s none = throw (immediate_exit (pos 1))
  load_read keep s (some text) = load_text keep text s

  unfoldable pub load_config : Bool → Text → V × UnrecognizedOptions → M (V × UnrecognizedOptions)
  unfolding load_read
  load_config keep cfg s = do
    r ← ask (read_config cfg) (λ h. env.contents h cfg)
    load_read keep s r

  unfoldable pub load_configs :
      Bool → List Text → V × UnrecognizedOptions → M (V × UnrecognizedOptions)
  unfolding load_config
  load_configs keep [] s = pure s
  load_configs keep (cfg ∷ cfgs) s = do next ← load_config keep cfg s; load_configs keep cfgs next

  -- An existing log file is moved out of the way; an error of the renaming is ignored.
  unfoldable pub archive_log : Text → M (Unit {0})
  archive_log path = do
    r ← ask (last_write_time path) (λ h. env.written h path)
    elim r [ none ↦ pure tt | some t ↦ tell (rename path (po.archived path t)) ]

  abbrev pub truncate_log : Bool → M (Unit {0})
  truncate_log true = tell log_file_truncate
  truncate_log false = pure tt

  -- `log.file`, with `log.file.archive` and `log.file.truncate`.
  unfoldable pub open_log : Text → Bool → Bool → M (Unit {0})
  unfolding archive_log
  open_log path true truncate = do archive_log path; tell (log_file path); truncate_log true
  open_log path false truncate = do tell (log_file path); truncate_log truncate

  unfoldable pub set_log_file : V → M (Option Text)
  unfolding open_log
  set_log_file vm =
      if po.count (lit "log.file") vm
      then (do
        open_log (env.absolute (first_text (po.texts (lit "log.file") vm)))
            (po.count (lit "log.file.archive") vm) (po.count (lit "log.file.truncate") vm)
        pure (some (env.absolute (first_text (po.texts (lit "log.file") vm)))))
      else pure none

  abbrev pub when : Bool → M (Unit {0}) → M (Unit {0})
  when true m = m
  when false m = pure tt

  unfoldable pub set_up_log : V → M (Option Text)
  unfolding set_log_file
  set_up_log vm = do
    when (po.count (lit "log.mask") vm)
        (tell (set_log_mask (first_text (po.texts (lit "log.mask") vm))))
    file ← set_log_file vm
    when (po.count (lit "log.console") vm) (tell (log_console (po.flag (lit "log.console") vm)))
    when (po.count (lit "log.timePrecision") vm)
        (tell (log_time_precision (first_text (po.texts (lit "log.timePrecision") vm))))
    pure file
