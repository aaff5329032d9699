-- ===== src/Program/Defaults.antt =====
-- service/program.{hpp,cpp}, service/cmdline.cpp and service/service.cpp: what a program is without the
-- functions that it may override, and what becomes of undeclared options that no function takes.
use libservice.Prelude.{ℤ, Text, Bool, true, false, Option, none, some, List, [], ◌≡◌, arith}
use libservice.Os.{
  Env, po_error, Trace, M, ◌>>=◌, ◌>>◌, pure, throw, Returns, Returns-bind, Returns-catch,
  Returns-next,
}
use libservice.Unrecognized.{ParsedOption, UnrecognizedOptions}
use libservice.Program.{Texts}
use libservice.Program.Options.{Po, Derived, ExtraParser, UnrecognizedParser, unrecognized}
use libservice.Program.Files.{load_configs, set_up_log}
use libservice.Program.Configure.{
  Configured, collect_unrecognized, process_unrecognized, after_files, with_files, before_files,
  configure_impl, configure, no_options,
}
use libservice.Cmdline.{Started, configured, ended, configured_or_code, run_unless, handle_operator}

-- `HelpPrinter`: whether it knows a help, and the list of the helps.
pub record HelpPrinter : Type 0 where
  pub help : Text → Bool
  pub list : List Text

-- The functions that a program may override: one that takes every undeclared option, one that takes
-- those of the command line and may give a parser, and one that gives none.
pub record Overrides (V : Type 0) : Type 0 where
  pub configure_options : Option (V → UnrecognizedOptions → M (Option (UnrecognizedParser V)))
  pub configure_cmdline : Option (V → List Text → M (Option (UnrecognizedParser V)))
  pub configure_texts : Option (List Text → M (Unit {0}))
  pub pre_notify_hook : Option (V → M (Unit {0}))
  pub pre_config_hook : Option (V → M (Unit {0}))
  pub extra_parser : Option ExtraParser
  pub help : Option (Text → Bool)
  pub list_helps : Option (List Text)
  -- The printer that is asked instead of the two functions, unless none is given.
  pub printer : Option (V → Option HelpPrinter)

-- `Cmdline::configure` and `Service::configure` of a list of texts.
unfoldable pub refuse_texts : List Text → M (Unit {0})
refuse_texts unrecognized = throw po_error

-- What a `HelpPrinter` of no other class knows: nothing.
unfoldable pub bare_printer : HelpPrinter
bare_printer = record { help = λ what. false; list = [] }

abbrev pub or_default {ℓ} : {A : Type ℓ} → A → Option A → A
or_default a none = a
or_default a (some b) = b

module _ {V : Type 0} (o : Overrides V) where
  unfoldable pub configure_texts : List Text → M (Unit {0})
  unfolding refuse_texts
  configure_texts = or_default refuse_texts o.configure_texts

  -- `Program::configure` of the options and a list of texts.
  unfoldable pub configure_cmdline : V → List Text → M (Option (UnrecognizedParser V))
  unfolding configure_texts
  configure_cmdline =
      or_default (λ vm texts. configure_texts texts >> pure none) o.configure_cmdline

  -- `Program::configure` of the options and what nobody declared.
  unfoldable pub configure_options : V → UnrecognizedOptions → M (Option (UnrecognizedParser V))
  unfolding configure_cmdline
  configure_options = or_default (λ vm un. configure_cmdline vm un.cmdline) o.configure_options

  -- `help` and `listHelps`, and the printer that calls them.
  unfoldable pub default_helper : HelpPrinter
  default_helper = record {
    help = or_default (λ what. false) o.help;
    list = or_default [] o.list_helps;
  }

  -- The printer that `configureImpl` works with.
  unfoldable pub helper_for : V → HelpPrinter
  unfolding default_helper
  helper_for vm = or_default default_helper (or_default (λ v. some default_helper) o.printer vm)

  abbrev pub texts_with : V → Texts → Texts
  texts_with vm own = record own { knows = (helper_for vm).help; list = (helper_for vm).list }

  -- A program with these functions; the other fields are the program's own.
  unfoldable pub with_defaults : Derived V → Derived V
  unfolding configure_options
  with_defaults d = record d {
    configure_unrecognized = configure_options;
    pre_notify_hook = or_default (λ vm. pure tt) o.pre_notify_hook;
    pre_config_hook = or_default (λ vm. pure tt) o.pre_config_hook;
    extra_parser = o.extra_parser;
    texts = λ vm. texts_with vm (d.texts vm);
  }

-- The program takes no undeclared option.
abbrev pub TakesNone : {V : Type 0} → Overrides V → Type 0
TakesNone o =
    (o.configure_options ≡ none) × (o.configure_cmdline ≡ none) × (o.configure_texts ≡ none)

-- The program ends with a code and does not run.
abbrev IsEnded : {V : Type 0} → Started V → Type 0
IsEnded (configured c) = ⊥
IsEnded (ended code) = Unit

module _ {V : Type 0} (env : Env) (po : Po V) (o : Overrides V) (own : Derived V)
    (takes_none : TakesNone o) (collects : unrecognized own.flags ≡ true) where
  abbrev program : Derived V
  program = with_defaults o own

  configure_options-refused :
      (vm : V) (un : UnrecognizedOptions) (h : Trace)
      → Returns (λ r t. ⊥) (configure_options o vm un h)
  unfolding configure_options configure_cmdline configure_texts refuse_texts
  configure_options-refused vm un h = rw (takes_none.0, takes_none.1, takes_none.2) tt

  process_unrecognized-refused :
      (parsed : List ParsedOption) (s : V × UnrecognizedOptions) (h : Trace)
      → Returns (λ r t. ⊥) (process_unrecognized env po program parsed s h)
  unfolding process_unrecognized collect_unrecognized with_defaults
  process_unrecognized-refused parsed s h = rw collects (
      Returns-bind (λ r t. ⊥) (λ r t. ⊥) (configure_options o s.0 _) _ h
        (configure_options-refused s.0 _ h) (λ r t x. elim x [ ]))

  with_files-refused :
      (s : V × List ParsedOption) (h : Trace) → Returns (λ r t. ⊥) (with_files env po program s h)
  unfolding with_files after_files
  with_files-refused s h =
      Returns-next (λ r t. ⊥) (load_configs env po _ _ (s.0, no_options)) _ h
        (λ l t.
          Returns-next (λ r t. ⊥) (set_up_log env po l.0) _ t
            (λ log u.
              Returns-bind (λ r t. ⊥) (λ r t. ⊥) (process_unrecognized env po program s.1 l) _ u
                (process_unrecognized-refused s.1 l u) (λ r w x. elim x [ ])))

  configure-refused :
      (args : List Text) (h : Trace) → Returns (λ c t. ⊥) (configure env po program args h)
  unfolding configure configure_impl
  configure-refused args h =
      Returns-catch (λ c t. ⊥) (configure_impl env po program args) _ h
        (Returns-next (λ c t. ⊥) (before_files env po program args) _ h
          (λ s t. with_files-refused s t))
        (λ e t. ground arith)

  configured_or_code-Ended :
      (args : List Text) (h : Trace)
      → Returns (λ r t. IsEnded r) (configured_or_code env po program args h)
  unfolding configured_or_code
  configured_or_code-Ended args h =
      Returns-catch (λ r t. IsEnded r) (do c ← configure env po program args; pure (configured c)) _
        h
        (Returns-bind (λ c t. ⊥) (λ r t. IsEnded r) (configure env po program args) _ h
          (configure-refused args h) (λ c t x. elim x [ ]))
        (λ e t. ground arith)

  -- A command line program that collects undeclared options and overrides none of the functions that
  -- take them never comes to its `run`: whatever `run` is, the program behaves the same.
  pub handle_operator-refused :
      (run other : Configured V → M ℤ) (args : List Text) (h : Trace)
      → handle_operator env po program run args h ≡ handle_operator env po program other args h
  unfolding handle_operator run_unless
  handle_operator-refused run other args h = ground (arith, configured_or_code-Ended args h)
