-- ===== src/Program/Precedence.antt =====
-- service/program.cpp, `configureImpl`: which source of an option wins.
use libservice.Prelude.{Text, Bool, true, false, Option, none, some, List, arith}
use libservice.Os.{Env, Trace, Returns, Returns-bind, Returns-next, Returns-catch}
use libservice.Unrecognized.{ParsedOption, UnrecognizedOptions}
use libservice.Program.Options.{Po, Derived, UnrecognizedParser}
use libservice.Program.Files.{set_up_log, load_configs}
use libservice.Program.Configure.{
  use_parser, collect_unrecognized, configure_parser, notified, no_options, after_files,
  keeps_unknown, files_of, answer_requests, parse_command_line, reparse, process_unrecognized,
  notify_configured, before_files, with_files, configure_impl, configure,
}
use libservice.Program.Stored.{
  StoreLaws, Has, GivenBy, load_configs-Has, reparse-Has, parse_command_line-Has,
}

module _ {V : Type 0} (env : Env) (po : Po V) (laws : StoreLaws po) (k : Text) (v : List Text) where
  use_parser-Has :
      (d : Derived V) (vm : V) (un : UnrecognizedOptions) (r : Option (UnrecognizedParser V))
      (h : Trace)
      → Has laws k v vm
      → Returns (λ r t. Has laws k v r.0) (use_parser env po d vm un r h)
  unfolding use_parser
  use_parser-Has d vm un none h has = has
  use_parser-Has d vm un (some p) h has =
      Returns-bind (λ r t. Has laws k v r) _ (reparse env po d p un vm) _ h
        (reparse-Has env po laws k v d p un vm h has) (λ next t q. q)

  collect-Has :
      (d : Derived V) (on : Bool) (vm : V) (un : UnrecognizedOptions) (h : Trace)
      → Has laws k v vm
      → Returns (λ r t. Has laws k v r.0) (collect_unrecognized env po d on vm un h)
  unfolding collect_unrecognized
  collect-Has d false vm un h has = has
  collect-Has d true vm un h has =
      Returns-next _ (d.configure_unrecognized vm un) _ h (λ r t. use_parser-Has d vm un r t has)

  notify_configured-Has :
      (d : Derived V) (s : V × Option (UnrecognizedParser V)) (h : Trace)
      → Has laws k v s.0
      → Returns (λ vm t. Has laws k v vm) (notify_configured env po d s h)
  unfolding notify_configured
  notify_configured-Has d s h has = Returns-next _ (d.pre_notify_hook s.0) _ h (λ a t.
      Returns-next _ (notified env po d (po.notify s.0)) _ t (λ b u.
        Returns-next _ (d.configure s.0) _ u
          (λ c w. Returns-next _ (configure_parser env po d s.1 s.0) _ w (λ e x. has))))

  after_files-Has :
      (d : Derived V) (parsed : List ParsedOption) (files : List Text) (l : V × UnrecognizedOptions)
      (h : Trace)
      → Has laws k v l.0
      → Returns (λ c t. Has laws k v c.vm) (after_files env po d parsed files l h)
  unfolding after_files process_unrecognized
  after_files-Has d parsed files l h has =
      Returns-next (λ c t. Has laws k v c.vm) (set_up_log env po l.0) _ h
        (λ log u.
          Returns-bind (λ r t. Has laws k v r.0) (λ c t. Has laws k v c.vm)
            (process_unrecognized env po d parsed l) _ u (collect-Has d _ l.0 _ u has)
            (λ n w q.
              Returns-bind (λ vm t. Has laws k v vm) (λ c t. Has laws k v c.vm)
                (notify_configured env po d n) _ w (notify_configured-Has d n w q) (λ vm x q'. q')))

  with_files-Has :
      (d : Derived V) (s : V × List ParsedOption) (h : Trace)
      → Has laws k v s.0
      → Returns (λ c t. Has laws k v c.vm) (with_files env po d s h)
  unfolding with_files
  with_files-Has d s h has =
      Returns-bind (λ r t. Has laws k v r.0) (λ c t. Has laws k v c.vm)
        (load_configs env po (keeps_unknown env po d) (files_of env po d s.0) (s.0, no_options)) _ h
        (load_configs-Has env po laws k v _ _ (s.0, no_options) h has)
        (λ l t q. after_files-Has d s.1 _ l t q)

  before_files-Has :
      (d : Derived V) (args : List Text) (h : Trace)
      → GivenBy laws k v d args
      → Returns (λ r t. Has laws k v r.0) (before_files env po d args h)
  unfolding before_files
  before_files-Has d args h given =
      Returns-bind (λ r t. Has laws k v r.0) (λ r t. Has laws k v r.0)
        (parse_command_line env po d args) _ h
        (parse_command_line-Has env po laws k v d args h given)
        (λ s t q.
          Returns-next (λ r t. Has laws k v r.0) (answer_requests env po d s.0) _ t
            (λ a u.
              Returns-next (λ r t. Has laws k v r.0) d.licence_check _ u
                (λ b w.
                  Returns-next (λ r t. Has laws k v r.0) (d.pre_config_hook s.0) _ w (λ c x. q))))

  -- Where a value that `po::store` has stored stays: an option that the command line gives has the
  -- command line's value in the end, whatever the response files, the configuration files and the
  -- program's own parser say, when `configure` returns.
  pub configure-Has :
      (d : Derived V) (args : List Text) (h : Trace)
      → GivenBy laws k v d args
      → Returns (λ c t. Has laws k v c.vm) (configure env po d args h)
  unfolding configure configure_impl
  configure-Has d args h given =
      Returns-catch (λ c t. Has laws k v c.vm) (configure_impl env po d args) _ h
        (Returns-bind (λ r t. Has laws k v r.0) (λ c t. Has laws k v c.vm)
          (before_files env po d args) _ h (before_files-Has d args h given)
          (λ s t q. with_files-Has d s t q))
        (λ e t. ground arith)
