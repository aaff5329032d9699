-- ===== src/Program/Stopping.antt =====
-- service/program.cpp, `configureImpl`, and service/service.cpp, `operator()`: what a hook that ends the
-- program leaves undone.
use libservice.Prelude.{ℕ, Text, Bool, true, false, List, [], ◌∷◌, refl, arith}
use libservice.Os.{Env, Trace, Returns, ◌>>=◌, pure, catch_rule}
use libservice.Unrecognized.{ParsedOption}
use libservice.Program.Options.{Po, Derived, Parser}
use libservice.Program.Files.{read_response, parse_response_files}
use libservice.Program.Configure.{
  Configured, parse, parse_response, parse_files, parse_command_line, answer_requests, before_files,
  configure_impl, configure,
}
use libservice.Service.{Options, User, configure_checked, run_operator}
use libservice.Program.Quietness.{Quiet, Stops, Quiet-bind, Stops-next, Stops-after, Stops-bind}

module _ {V : Type 0} (env : Env) (po : Po V) (d : Derived V) where
  read_response-Quiet : (f : Text) (h : Trace) → Quiet h (read_response env po f h)
  unfolding read_response
  read_response-Quiet f h = ground arith

  parse_response_files-Quiet :
      (files : List Text) (h : Trace) → Quiet h (parse_response_files env po files h)
  unfolding parse_response_files
  parse_response_files-Quiet [] h = refl
  parse_response_files-Quiet (f ∷ fs) h =
      Quiet-bind (read_response env po f) _ h (read_response-Quiet f h) (λ args t.
        Quiet-bind (parse_response_files env po fs) _ t (parse_response_files-Quiet fs t)
          (λ rest u. refl))

  parse-Quiet :
      (parser : Parser) (args : List Text) (s : V × List ParsedOption) (h : Trace)
      → Quiet h (parse env po d parser args s h)
  unfolding parse
  parse-Quiet parser args s h = ground arith

  parse_response-Quiet :
      (on : Bool) (s : V × List ParsedOption) (h : Trace) → Quiet h (parse_response env po d on s h)
  unfolding parse_response
  parse_response-Quiet false s h = refl
  parse_response-Quiet true s h =
      Quiet-bind (parse_response_files env po _) _ h (parse_response_files-Quiet _ h)
        (λ args t. parse-Quiet _ args s t)

  answer_requests-Quiet : (vm : V) (h : Trace) → Quiet h (answer_requests env po d vm h)
  unfolding answer_requests
  answer_requests-Quiet vm h = ground arith

  parse_command_line-Quiet :
      (args : List Text) (h : Trace) → Quiet h (parse_command_line env po d args h)
  unfolding parse_command_line parse_files
  parse_command_line-Quiet args h =
      Quiet-bind (parse env po d _ args (po.empty, [])) _ h (parse-Quiet _ args (po.empty, []) h)
        (λ s t. parse_response-Quiet _ s t)

  -- What the parse of the command line gives, and the hook that stops at it.
  module _ (P : V → Type 0) (quiet : (t : Trace) → Quiet t (d.licence_check t))
      (stops : (vm : V) (t : Trace) → P vm → Stops t (d.pre_config_hook vm t)) where
    before_files-Stops :
        (args : List Text) (h : Trace)
        → Returns (λ s t. P s.0) (parse_command_line env po d args h)
        → Stops h (before_files env po d args h)
    unfolding before_files
    before_files-Stops args h p =
        Stops-after (λ s. P s.0) (parse_command_line env po d args) _ h
          (parse_command_line-Quiet args h) p
          (λ s t given.
            Stops-next (answer_requests env po d s.0) _ t (answer_requests-Quiet s.0 t) (λ a u.
              Stops-next d.licence_check _ u (quiet u)
                (λ b w. Stops-bind (d.pre_config_hook s.0) _ w (stops s.0 w given))))

    configure-Stops :
        (args : List Text) (h : Trace)
        → Returns (λ s t. P s.0) (parse_command_line env po d args h)
        → Stops h (configure env po d args h)
    unfolding configure configure_impl
    configure-Stops args h p =
        catch_rule (Stops h) (configure_impl env po d args) _ h (λ c t e. ground (arith, inner))
          (λ e t x. ground (arith, inner)) (λ c t x. ground (arith, inner))
          (λ t x. ground (arith, inner))
      where
        inner : Stops h (configure_impl env po d args h)
        inner = Stops-bind (before_files env po d args) _ h (before_files-Stops args h p)

    -- When the hook stops at what the command line gives, the program reads no configuration file,
    -- leaves the log alone, does not go to the background and does not start.
    pub run_operator-Quiet :
        (user : User) (absolute : Text → Text) (fuel : ℕ) (options : Configured V → Options)
        (args : List Text) (h : Trace)
        → Returns (λ s t. P s.0) (parse_command_line env po d args h)
        → Quiet h (
            run_operator env user absolute fuel
              (do c ← configure env po d args; pure (options c))
              h)
    unfolding run_operator configure_checked
    run_operator-Quiet user absolute fuel options args h p = ground (
      arith,
      Stops-bind (configure env po d args) (λ c. pure (options c)) h (configure-Stops args h p),
    )
