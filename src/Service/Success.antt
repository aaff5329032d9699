-- ===== src/Service/Success.antt =====
-- service/service.cpp, `operator()` after the daemonization: that the service runs.
use libservice.Prelude.{ℕ, ℤ, Text, Bool, true, false, Option, none, some, ◌≡◌, ◌∙◌, arith}
use libservice.Os.{
  Env, Completes, Completes-bind, immediate_exit, pure, throw, PersonaSwitchMode, create_excl, Call,
  Trace, in_child, Run, M,
}
use libservice.PidFile.{allocate}
use libservice.PidFile.World.{succeeded}
use libservice.Persona.{Config, Persona, switch_persona, login_env}
use libservice.SignalHandler
use libservice.SignalHandler.{Handler, process, must_terminate}
use libservice.SignalHandler.Termination.{
  has_terminating, init_goes_on, start_goes_on, process_goes_on,
}
use libservice.Daemon.{
  Globals, Outcome, daemon, returns, out_of_fuel, run_in_background, daemonize_finish,
}
use libservice.Service.{
  Options, User, Hook, gives, raises, make_handler, take_pid_file, change_persona, switch_as,
  started, start_user, serve, serve_unless, handler_unless, after_fork, check_options, daemonized,
  configure_checked, after_checks, run_operator,
}

abbrev is_there : {A : Type 0} → Option A → Bool
is_there none = false
is_there (some a) = true

-- Every call succeeds, and `fork` returns in the child.
pub record Works (env : Env) : Type 0 where
  pub opens : (t : Trace) (path : Text) → succeeded (env.opens t create_excl path) ≡ true
  pub fdopens : (t : Trace) (fd : ℕ) → succeeded (env.fdopens t fd) ≡ true
  pub locks : (t : Trace) (fd : ℕ) → succeeded (env.locks t fd) ≡ true
  pub makes_directories : (t : Trace) (p : Text) → succeeded (env.makes_directories t p) ≡ true
  pub succeeds : (t : Trace) (c : Call) → succeeded (env.succeeds t c) ≡ true
  pub users : (t : Trace) (n : Text) → is_there (env.users t n) ≡ true
  pub users_by_id : (t : Trace) (n : ℕ) → is_there (env.users_by_id t n) ≡ true
  pub pipes : (t : Trace) → succeeded (env.pipes t) ≡ true
  pub forks : (t : Trace) → env.forks t ≡ in_child
  pub groups : (t : Trace) (n : Text) → is_there (env.groups t n) ≡ true

-- The service has started, and was not told to end.
abbrev pub Begins : Hook Handler → Type 0
Begins (gives h) = must_terminate h ≡ false
Begins (raises e) = ⊥

-- The service's functions return, `start` without having stopped the service, whatever else it does to
-- the signal handler, and no terminate signal comes.
pub record Willing (user : User) (mode : PersonaSwitchMode) (code : ℤ) : Type 0 where
  pub before_daemonize : (t : Trace) (b : Bool) → user.before_daemonize t b ≡ gives tt
  pub before_persona : (t : Trace) → user.before_persona t ≡ gives mode
  pub after_persona : (t : Trace) → user.after_persona t ≡ gives tt
  pub start : (t : Trace) (h : Handler) → must_terminate h ≡ false → Begins (user.start t h)
  pub run : (t : Trace) (h : Handler) → user.run t h ≡ gives code
  pub events : (t : Trace) → has_terminating (user.events t) ≡ false

abbrev IsDaemon : Outcome → Type 0
IsDaemon (daemon g) = Unit
IsDaemon (returns code) = ⊥
IsDaemon out_of_fuel = ⊥

-- The run returns with this.
abbrev pub Gives {ℓ} : {A : Type ℓ} → (A → Type 0) → Run A → Type 0
Gives P r = Completes (λ a t. P a) r

-- The options pass the checks.
abbrev pub Passes : Options → Type 0
Passes o = check_options o ≡ none

module _ (env : Env) (works : Works env) where
  allocate-Gives : (path : Text) (t : Trace) → Gives (λ u. Unit {0}) (allocate env path t)
  unfolding allocate
  allocate-Gives path t =
      grind (arith, works.opens, works.fdopens, works.locks, works.makes_directories)

  take_pid_file-Gives : (o : Options) (t : Trace) → Gives (λ c. c ≡ none) (take_pid_file env o t)
  unfolding take_pid_file
  take_pid_file-Gives o t = grind (arith, works.succeeds, allocate-Gives)

  make_handler-Gives :
      (pid : ℕ) (o : Options) (t : Trace)
      → Gives (λ h. must_terminate h ≡ false) (make_handler env pid o.ctrl t)
  unfolding make_handler
  make_handler-Gives pid o t =
      grind (arith, works.users, works.groups, works.succeeds, init_goes_on)

  login_env-Gives :
      (config : Config) (p : Persona) (t : Trace) → Gives (λ u. Unit {0}) (login_env env config p t)
  unfolding login_env
  login_env-Gives config p t = grind (arith, works.users_by_id)

  switch_persona-Gives :
      (mode : PersonaSwitchMode) (config : Config) (t : Trace)
      → Gives (λ p. Unit {0}) (switch_persona env mode config t)
  unfolding switch_persona
  switch_persona-Gives mode config t = grind (arith, works.users, works.groups, works.succeeds)

  module _ (user : User) (mode : PersonaSwitchMode) (code : ℤ)
      (willing : Willing user mode code) where
    switch_as-Gives :
        (config : Config) (t : Trace) → Gives (λ c. c ≡ none) (switch_as env user config mode t)
    unfolding switch_as
    switch_as-Gives config t =
        grind (arith, switch_persona-Gives, login_env-Gives, willing.after_persona)

    change_persona-Gives :
        (config : Config) (t : Trace) → Gives (λ c. c ≡ none) (change_persona env user config t)
    unfolding change_persona
    change_persona-Gives config t = grind (arith, willing.before_persona, switch_as-Gives)

    started-Gives :
        (o : Options) (g : Globals) (h : Handler) (t : Trace)
        → must_terminate h ≡ false
        → Gives (λ c. c ≡ code) (started env user o.daemonize g h t)
    unfolding started daemonize_finish
    started-Gives o g h t going = grind (arith, willing.events, willing.run, process_goes_on)

    start_user-Gives :
        (h : Handler) (t : Trace)
        → must_terminate h ≡ false
        → Gives Begins (start_user env user h t)
    unfolding start_user
    start_user-Gives h t going = ground (arith, willing.start t h going)

    serve-Gives :
        (o : Options) (g : Globals) (h : Handler) (t : Trace)
        → must_terminate h ≡ false
        → Gives (λ c. c ≡ code) (serve env user o.daemonize g h t)
    unfolding serve
    serve-Gives o g h t going =
        Completes-bind (λ r u. Begins r) (λ c u. c ≡ code) (start_user env user begun) _ t
          (start_user-Gives begun t (start_goes_on h ∙ going)) next
      where
        begun : Handler
        begun = SignalHandler.start (SignalHandler.global_terminate true 0 h)

        next :
            (r : Hook Handler) (u : Trace)
            → Begins r
            → Gives
                (λ c. c ≡ code)
                ((elim r as (λ x. M ℤ) [
                  | raises e ↦ elim e [ immediate_exit c ↦ pure c | other ↦ throw other ]
                  | gives x ↦ started env user o.daemonize g x
                ])
                  u)
        next (raises e) u p = absurd p
        next (gives x) u p = started-Gives o g x u p

    -- The run returns what the rest gives, whatever the first part leaves of the trace.
    handler_unless-Gives :
        (o : Options) (g : Globals) (t : Trace)
        → Gives (λ c. c ≡ code) (handler_unless env user o g none t)
    unfolding handler_unless serve_unless
    handler_unless-Gives o g t =
        grind (arith, make_handler-Gives, change_persona-Gives, serve-Gives)

    after_fork-Gives :
        (o : Options) (g : Globals) (t : Trace) → Gives (λ c. c ≡ code) (after_fork env user o g t)
    unfolding after_fork
    after_fork-Gives o g t = grind (arith, take_pid_file-Gives, handler_unless-Gives)

    run_in_background-Gives :
        (fuel : ℕ) (nochdir : Bool) (g : Globals) (t : Trace)
        → Gives IsDaemon (run_in_background env fuel nochdir g t)
    unfolding run_in_background
    run_in_background-Gives fuel nochdir g t =
        grind (arith, works.pipes, works.forks, works.succeeds)

    daemonized-Gives :
        (fuel : ℕ) (o : Options) (t : Trace)
        → Gives (λ r. r ≡ some code) (daemonized env user fuel o t)
    unfolding daemonized
    daemonized-Gives fuel o t = grind (arith, run_in_background-Gives, after_fork-Gives)

    -- A service comes up: where the options that the configuration gives pass the checks, every call
    -- succeeds, the functions of the service return, `start` without having stopped the service, and no
    -- terminate signal comes, `operator()` returns the code that `run` returned, in the process in which each `fork` is the child's.
    pub run_operator-Gives :
        (absolute : Text → Text) (fuel : ℕ) (configured : M Options) (t : Trace)
        → Gives Passes (configured t)
        → Gives (λ r. r ≡ some code) (run_operator env user absolute fuel configured t)
    unfolding run_operator configure_checked after_checks
    run_operator-Gives absolute fuel configured t passes =
        grind (arith, passes, willing.before_daemonize, daemonized-Gives)
