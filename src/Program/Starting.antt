-- ===== src/Program/Starting.antt =====
-- service/program.cpp, `configure`: the configuration does not start the service, unless a function of
-- the program does.
use libservice.Prelude.{
  ℕ, suc, Text, Bool, true, false, Option, none, some, List, [], ◌∷◌, refl, arith,
}
use libservice.Os.{
  Env, Trace, start_service, M, ◌>>=◌, pure, Same, Same-bind, Same-catch, Returns, Returns-bind,
  Returns-next, bind_rule, Run,
}
use libservice.Unrecognized.{ParsedOption, ConfigOptions, UnrecognizedOptions}
use libservice.Program.Options.{Po, Derived, Parser, UnrecognizedParser, config_args}
use libservice.Program.Files.{
  accepted, read_response, parse_response_files, load_text, load_read, load_config, load_configs,
  set_up_log,
}
use libservice.Program.Configure.{
  parse, parse_response, parse_files, parse_command_line, answer_requests, before_files, no_options,
  reparse_configs, reparse, use_parser, collect_unrecognized, process_unrecognized, notified,
  configure_parser, notify_configured, after_files, with_files, configure_impl, configure,
}

-- How often the service's `start` was called, and a run that does not call it.
abbrev pub starts_in : Trace → ℕ
starts_in [] = 0
starts_in (start_service ∷ t) = suc (starts_in t)
starts_in (_ ∷ t) = starts_in t

abbrev pub NoStart {ℓ} : {A : Type ℓ} → Trace → Run A → Type 0
NoStart h r = Same starts_in h r

-- A parser for undeclared options whose own function does not start the service.
abbrev pub CalmConfigure : {V : Type 0} → Option (V → M (Unit {0})) → Type 0
CalmConfigure none = Unit
CalmConfigure {V} (some f) = (vm : V) (t : Trace) → NoStart t (f vm t)

abbrev pub CalmParser : {V : Type 0} → Option (UnrecognizedParser V) → Type 0
CalmParser none = Unit
CalmParser (some p) = CalmConfigure p.configure

-- The functions of the program, and of the parsers that it gives, do not start the service.
pub record Calm {V : Type 0} (d : Derived V) : Type 0 where
  pub licence_check : (t : Trace) → NoStart t (d.licence_check t)
  pub pre_config_hook : (vm : V) (t : Trace) → NoStart t (d.pre_config_hook vm t)
  pub configure_unrecognized :
      (vm : V) (un : UnrecognizedOptions) (t : Trace)
      → NoStart t (d.configure_unrecognized vm un t)
        × Returns (λ r u. CalmParser r) (d.configure_unrecognized vm un t)
  pub pre_notify_hook : (vm : V) (t : Trace) → NoStart t (d.pre_notify_hook vm t)
  pub configure : (vm : V) (t : Trace) → NoStart t (d.configure vm t)

-- What follows may use what holds of the value.
Same-after {ℓ κ} :
    {A : Type ℓ} {B : Type κ} (P : A → Type 0) (m : M A) (f : A → M B) (h : Trace)
    → NoStart h (m h)
    → Returns (λ a t. P a) (m h)
    → ((a : A) (t : Trace) → P a → NoStart t (f a t))
    → NoStart h ((m >>= f) h)
Same-after P m f h q p next =
    bind_rule (NoStart h) m f h (λ a t e. ground (arith, e, q, next a t (rw e at p)))
      (λ e t x. ground arith) (λ c t x. ground arith) (λ t x. ground arith)

module _ {V : Type 0} (env : Env) (po : Po V) (d : Derived V) (calm : Calm d) where
  parse_response_files-NoStart :
      (files : List Text) (h : Trace) → NoStart h (parse_response_files env po files h)
  unfolding parse_response_files read_response
  parse_response_files-NoStart [] h = refl
  parse_response_files-NoStart (f ∷ fs) h =
      Same-bind starts_in (read_response env po f) _ h (ground arith) (λ args t.
        Same-bind starts_in (parse_response_files env po fs) _ t (parse_response_files-NoStart fs t)
          (λ rest u. refl))

  parse-NoStart :
      (parser : Parser) (args : List Text) (s : V × List ParsedOption) (h : Trace)
      → NoStart h (parse env po d parser args s h)
  unfolding parse
  parse-NoStart parser args s h = ground arith

  parse_response-NoStart :
      (on : Bool) (s : V × List ParsedOption) (h : Trace)
      → NoStart h (parse_response env po d on s h)
  unfolding parse_response
  parse_response-NoStart false s h = refl
  parse_response-NoStart true s h =
      Same-bind starts_in (parse_response_files env po _) _ h (parse_response_files-NoStart _ h)
        (λ args t. parse-NoStart _ args s t)

  answer_requests-NoStart : (vm : V) (h : Trace) → NoStart h (answer_requests env po d vm h)
  unfolding answer_requests
  answer_requests-NoStart vm h = ground arith

  before_files-NoStart : (args : List Text) (h : Trace) → NoStart h (before_files env po d args h)
  unfolding before_files parse_command_line parse_files
  before_files-NoStart args h =
      Same-bind starts_in (parse_command_line env po d args) _ h
        (Same-bind starts_in (parse env po d _ args (po.empty, [])) _ h
          (parse-NoStart _ args (po.empty, []) h) (λ s t. parse_response-NoStart _ s t))
        (λ s t.
          Same-bind starts_in (answer_requests env po d s.0) _ t (answer_requests-NoStart s.0 t)
            (λ a u. Same-bind starts_in d.licence_check _ u (calm.licence_check u) (λ b w.
              Same-bind starts_in (d.pre_config_hook s.0) _ w (calm.pre_config_hook s.0 w)
                (λ c x. refl))))

  load_configs-NoStart :
      (keep : Bool) (cfgs : List Text) (s : V × UnrecognizedOptions) (h : Trace)
      → NoStart h (load_configs env po keep cfgs s h)
  unfolding load_configs load_config load_read load_text
  load_configs-NoStart keep [] s h = refl
  load_configs-NoStart keep (cfg ∷ cfgs) s h =
      Same-bind starts_in (load_config env po keep cfg s) _ h (ground arith)
        (λ next t. load_configs-NoStart keep cfgs next t)

  set_up_log-NoStart : (vm : V) (h : Trace) → NoStart h (set_up_log env po vm h)
  unfolding set_up_log
  set_up_log-NoStart vm h = ground arith

  reparse_configs-NoStart :
      (p : UnrecognizedParser V) (config : List ConfigOptions) (vm : V) (h : Trace)
      → NoStart h (reparse_configs env po d p config vm h)
  unfolding reparse_configs
  reparse_configs-NoStart p [] vm h = refl
  reparse_configs-NoStart p (co ∷ config) vm h =
      Same-bind starts_in (accepted (p.parse_config (config_args co))) _ h (ground arith)
        (λ parsed t.
          Same-bind starts_in (accepted (po.store parsed vm)) _ t (ground arith)
            (λ next u. reparse_configs-NoStart p config next u))

  use_parser-NoStart :
      (vm : V) (un : UnrecognizedOptions) (r : Option (UnrecognizedParser V)) (h : Trace)
      → NoStart h (use_parser env po d vm un r h)
  unfolding use_parser reparse
  use_parser-NoStart vm un none h = refl
  use_parser-NoStart vm un (some p) h =
      Same-bind starts_in (reparse env po d p un vm) _ h
        (Same-bind starts_in (accepted (p.parse_cmdline un.cmdline)) _ h (ground arith) (λ parsed t.
          Same-bind starts_in (accepted (po.store parsed vm)) _ t (ground arith)
            (λ next u. reparse_configs-NoStart p un.config next u)))
        (λ next t. refl)

  collect-NoStart :
      (on : Bool) (vm : V) (un : UnrecognizedOptions) (h : Trace)
      → NoStart h (collect_unrecognized env po d on vm un h)
  unfolding collect_unrecognized
  collect-NoStart false vm un h = refl
  collect-NoStart true vm un h =
      Same-bind starts_in (d.configure_unrecognized vm un) _ h
        (calm.configure_unrecognized vm un h).0 (λ r t. use_parser-NoStart vm un r t)

  use_parser-Calm :
      (vm : V) (un : UnrecognizedOptions) (r : Option (UnrecognizedParser V)) (h : Trace)
      → CalmParser r
      → Returns (λ n t. CalmParser n.1) (use_parser env po d vm un r h)
  unfolding use_parser
  use_parser-Calm vm un none h c = tt
  use_parser-Calm vm un (some p) h c =
      Returns-next (λ n t. CalmParser n.1) (reparse env po d p un vm) _ h (λ next t. c)

  collect-Calm :
      (on : Bool) (vm : V) (un : UnrecognizedOptions) (h : Trace)
      → Returns (λ n t. CalmParser n.1) (collect_unrecognized env po d on vm un h)
  unfolding collect_unrecognized
  collect-Calm false vm un h = tt
  collect-Calm true vm un h =
      Returns-bind (λ r t. CalmParser r) (λ n t. CalmParser n.1) (d.configure_unrecognized vm un) _
        h (calm.configure_unrecognized vm un h).1 (λ r t c. use_parser-Calm vm un r t c)

  parser-NoStart :
      (r : Option (UnrecognizedParser V)) (vm : V) (h : Trace)
      → CalmParser r
      → NoStart h (configure_parser env po d r vm h)
  parser-NoStart none vm h c = refl
  parser-NoStart (some p) vm h c = go p.configure c
    where
      go :
          (f : Option (V → M (Unit {0})))
          → CalmConfigure f
          → NoStart h ((elim f as (λ x. M (Unit {0})) [ none ↦ pure tt | some g ↦ g vm ]) h)
      go none c = refl
      go (some g) c = c vm h

  notify_configured-NoStart :
      (s : V × Option (UnrecognizedParser V)) (h : Trace)
      → CalmParser s.1
      → NoStart h (notify_configured env po d s h)
  unfolding notify_configured
  notify_configured-NoStart s h given =
      Same-bind starts_in (d.pre_notify_hook s.0) _ h (calm.pre_notify_hook s.0 h) (λ a t.
        Same-bind starts_in (notified env po d (po.notify s.0)) _ t (ground arith) (λ b u.
          Same-bind starts_in (d.configure s.0) _ u (calm.configure s.0 u) (λ c w.
            Same-bind starts_in (configure_parser env po d s.1 s.0) _ w
              (parser-NoStart s.1 s.0 w given) (λ e x. refl))))

  with_files-NoStart : (s : V × List ParsedOption) (h : Trace) → NoStart h (with_files env po d s h)
  unfolding with_files after_files process_unrecognized
  with_files-NoStart s h =
      Same-bind starts_in (load_configs env po _ _ (s.0, no_options)) _ h
        (load_configs-NoStart _ _ (s.0, no_options) h)
        (λ l t. Same-bind starts_in (set_up_log env po l.0) _ t (set_up_log-NoStart l.0 t) (λ log u.
          Same-after (λ n. CalmParser n.1) (process_unrecognized env po d s.1 l) _ u
            (collect-NoStart _ l.0 _ u) (collect-Calm _ l.0 _ u)
            (λ n w given.
              Same-bind starts_in (notify_configured env po d n) _ w
                (notify_configured-NoStart n w given) (λ vm x. refl))))

  pub configure-NoStart : (args : List Text) (h : Trace) → NoStart h (configure env po d args h)
  unfolding configure configure_impl
  configure-NoStart args h =
      Same-catch starts_in (configure_impl env po d args) _ h
        (Same-bind starts_in (before_files env po d args) _ h (before_files-NoStart args h)
          (λ s t. with_files-NoStart s t))
        (λ e t. ground arith)
