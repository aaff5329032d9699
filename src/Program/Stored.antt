-- ===== src/Program/Stored.antt =====
-- service/program.cpp, `configureImpl`: an option that is stored stays, through the parses and the
-- configuration files.
use libservice.Prelude.{
  Text, Bool, true, false, Option, none, some, List, [], ◌∷◌, ◌≡◌, refl, arith, ◌∙◌,
}
use libservice.Os.{Env, Trace, read_config, pure, Returns, Returns-bind, Returns-next, ◌>>=◌}
use libservice.Unrecognized.{ParsedOption, ConfigOptions, UnrecognizedOptions}
use libservice.Program.Options.{Po, Derived, Parser, UnrecognizedParser, create_parser, config_args}
use libservice.Program.Files.{
  add_config, load_read, parse_response_files, accepted, load_text, load_config, load_configs,
}
use libservice.Program.Configure.{
  parse_response, kept, parse, parse_files, parse_command_line, reparse_configs, reparse,
}

-- The first of two answers.
abbrev pub or_else {ℓ} : {A : Type ℓ} → Option A → Option A → Option A
or_else none b = b
or_else (some a) b = some a

-- What is taken from `po::store`, `count` and the reading of an option: the explicit values of an option
-- in a map, those that a parse gives it, that a value once stored stays, and that it is counted and read.
pub record StoreLaws {V : Type 0} (po : Po V) : Type 0 where
  pub value : Text → V → Option (List Text)
  pub given : Text → List ParsedOption → Option (List Text)
  pub stores :
      (k : Text) (parsed : List ParsedOption) (vm next : V)
      → po.store parsed vm ≡ some next
      → value k next ≡ or_else (value k vm) (given k parsed)
  pub counts : (k : Text) (v : List Text) (vm : V) → value k vm ≡ some v → po.count k vm ≡ true
  pub reads : (k : Text) (v : List Text) (vm : V) → value k vm ≡ some v → po.texts k vm ≡ v

-- The option has this value in a map.
abbrev pub Has : {V : Type 0} {po : Po V} → StoreLaws po → Text → List Text → V → Type 0
Has laws k v vm = laws.value k vm ≡ some v

-- The parse of the command line itself gives it.
abbrev pub GivenBy :
    {V : Type 0} {po : Po V} → StoreLaws po → Text → List Text → Derived V → List Text → Type 0
GivenBy {po} laws k v d args =
    elim (po.parse_args (create_parser true d.flags d.extra_parser) args) [
      | none ↦ Unit {0}
      | some parsed ↦ or_else (laws.value k po.empty) (laws.given k parsed) ≡ some v
    ]

module _ {V : Type 0} (env : Env) (po : Po V) (laws : StoreLaws po) (k : Text) (v : List Text) where
  store-Has :
      (parsed : List ParsedOption) (vm next : V)
      → po.store parsed vm ≡ some next
      → Has laws k v vm
      → Has laws k v next
  store-Has parsed vm next e has = ground (arith, laws.stores k parsed vm next e)

  accepted-Has :
      (parsed : List ParsedOption) (vm : V) (h : Trace)
      → Has laws k v vm
      → Returns (λ next t. Has laws k v next) (accepted (po.store parsed vm) h)
  accepted-Has parsed vm h has = go (po.store parsed vm) refl
    where
      go :
          (r : Option V)
          → po.store parsed vm ≡ r
          → Returns (λ next t. Has laws k v next) (accepted r h)
      go none e = tt
      go (some next) e = store-Has parsed vm next e has

  parse-Has :
      (d : Derived V) (parser : Parser) (args : List Text) (s : V × List ParsedOption) (h : Trace)
      → Has laws k v s.0
      → Returns (λ r t. Has laws k v r.0) (parse env po d parser args s h)
  unfolding parse
  parse-Has d parser args s h has =
      Returns-next _ (accepted (po.parse_args parser args)) _ h (λ parsed t.
        Returns-bind (λ next t. Has laws k v next) _ (accepted (po.store parsed s.0)) _ t
          (accepted-Has parsed s.0 t has) (λ vm u q. q))

  load_text-Has :
      (keep : Bool) (text : Text) (s : V × UnrecognizedOptions) (h : Trace)
      → Has laws k v s.0
      → Returns (λ r t. Has laws k v r.0) (load_text env po keep text s h)
  unfolding load_text
  load_text-Has keep text s h has =
      Returns-next _ (accepted (po.parse_file keep text)) _ h (λ parsed t.
        Returns-bind (λ next t. Has laws k v next) _ (accepted (po.store parsed s.0)) _ t
          (accepted-Has parsed s.0 t has)
          (λ vm u q. Returns-next _ (add_config env po keep parsed s.1) _ u (λ un w. q)))

  load_read-Has :
      (keep : Bool) (s : V × UnrecognizedOptions) (r : Option Text) (h : Trace)
      → Has laws k v s.0
      → Returns (λ r t. Has laws k v r.0) (load_read env po keep s r h)
  unfolding load_read
  load_read-Has keep s none h has = tt
  load_read-Has keep s (some text) h has = load_text-Has keep text s h has

  load_config-Has :
      (keep : Bool) (cfg : Text) (s : V × UnrecognizedOptions) (h : Trace)
      → Has laws k v s.0
      → Returns (λ r t. Has laws k v r.0) (load_config env po keep cfg s h)
  unfolding load_config
  load_config-Has keep cfg s h has =
      load_read-Has keep s (env.contents h cfg) (read_config cfg ∷ h) has

  pub load_configs-Has :
      (keep : Bool) (cfgs : List Text) (s : V × UnrecognizedOptions) (h : Trace)
      → Has laws k v s.0
      → Returns (λ r t. Has laws k v r.0) (load_configs env po keep cfgs s h)
  unfolding load_configs
  load_configs-Has keep [] s h has = has
  load_configs-Has keep (cfg ∷ cfgs) s h has =
      Returns-bind (λ r t. Has laws k v r.0) _ (load_config env po keep cfg s) _ h
        (load_config-Has keep cfg s h has) (λ next t q. load_configs-Has keep cfgs next t q)

  reparse_configs-Has :
      (d : Derived V) (p : UnrecognizedParser V) (config : List ConfigOptions) (vm : V) (h : Trace)
      → Has laws k v vm
      → Returns (λ r t. Has laws k v r) (reparse_configs env po d p config vm h)
  unfolding reparse_configs
  reparse_configs-Has d p [] vm h has = has
  reparse_configs-Has d p (co ∷ config) vm h has =
      Returns-next _ (accepted (p.parse_config (config_args co))) _ h (λ parsed t.
        Returns-bind (λ next t. Has laws k v next) _ (accepted (po.store parsed vm)) _ t
          (accepted-Has parsed vm t has) (λ next u q. reparse_configs-Has d p config next u q))

  pub reparse-Has :
      (d : Derived V) (p : UnrecognizedParser V) (un : UnrecognizedOptions) (vm : V) (h : Trace)
      → Has laws k v vm
      → Returns (λ r t. Has laws k v r) (reparse env po d p un vm h)
  unfolding reparse
  reparse-Has d p un vm h has =
      Returns-next _ (accepted (p.parse_cmdline un.cmdline)) _ h (λ parsed t.
        Returns-bind (λ next t. Has laws k v next) _ (accepted (po.store parsed vm)) _ t
          (accepted-Has parsed vm t has) (λ next u q. reparse_configs-Has d p un.config next u q))

  parse_response-Has :
      (d : Derived V) (on : Bool) (s : V × List ParsedOption) (h : Trace)
      → Has laws k v s.0
      → Returns (λ r t. Has laws k v r.0) (parse_response env po d on s h)
  unfolding parse_response
  parse_response-Has d false s h has = has
  parse_response-Has d true s h has =
      Returns-next (λ r t. Has laws k v r.0) (parse_response_files env po _) _ h
        (λ args t. parse-Has d _ args s t has)

  first_parse-Has :
      (d : Derived V) (args : List Text) (h : Trace)
      → GivenBy laws k v d args
      → Returns
          (λ r t. Has laws k v r.0)
          (parse env po d (create_parser true d.flags d.extra_parser) args (po.empty, []) h)
  unfolding parse
  first_parse-Has d args h given = go (po.parse_args _ args) given
    where
      stored :
          (parsed : List ParsedOption) (r : Option V)
          → po.store parsed po.empty ≡ r
          → or_else (laws.value k po.empty) (laws.given k parsed) ≡ some v
          → Returns (λ next t. Has laws k v next) (accepted r h)
      stored parsed none e q = tt
      stored parsed (some vm) e q = laws.stores k parsed po.empty vm e ∙ q

      go :
          (r : Option (List ParsedOption))
          → elim r as (λ x. Type 0) [
            | none ↦ Unit {0}
            | some parsed ↦ or_else (laws.value k po.empty) (laws.given k parsed) ≡ some v
          ]
          → Returns {A = V × List ParsedOption}
              (λ r t. Has laws k v r.0)
              ((do
                parsed ← accepted r
                vm ← accepted (po.store parsed po.empty)
                pure (vm, kept env po d [] parsed))
                h)
      go none q = tt
      go (some parsed) q =
          Returns-bind (λ next t. Has laws k v next) (λ r t. Has laws k v r.0)
            (accepted (po.store parsed po.empty)) _ h
            (stored parsed (po.store parsed po.empty) refl q) (λ vm t q'. q')

  pub parse_command_line-Has :
      (d : Derived V) (args : List Text) (h : Trace)
      → GivenBy laws k v d args
      → Returns (λ r t. Has laws k v r.0) (parse_command_line env po d args h)
  unfolding parse_command_line parse_files
  parse_command_line-Has d args h given =
      Returns-bind (λ r t. Has laws k v r.0) (λ r t. Has laws k v r.0)
        (parse env po d (create_parser true d.flags d.extra_parser) args (po.empty, [])) _ h
        (first_parse-Has d args h given) (λ s t q. parse_response-Has d _ s t q)
