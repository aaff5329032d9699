-- ===== src/Service/Startup.antt =====
-- service/service.cpp, `operator()`: when the service's own code is reached.
use libservice.Prelude.{
  ℕ, suc, ℤ, pos, Text, Bool, true, false, Option, none, some, [], ◌∷◌, ◌≡◌, ◌⊎◌, refl, arith,
  is_empty, ◌||◌, ◌&&◌, not, if◌then◌else◌,
}
use libservice.Os.{
  Env, pre_persona_switch, run_service, PersonaSwitchMode, set_real_id, set_effective_id,
  set_effective_and_saved_id, setuid, seteuid, setreuid, fail, Trace, Run, done, threw, quit,
  undefined, trace_of, bind_rule, ◌>>=◌, Returns,
}
use libservice.Program.Starting.{starts_in, NoStart}
use libservice.PidFile.{allocate}
use libservice.Persona.Switching.{user_switches, switch_persona_order}
use libservice.Persona.{Persona, Config, uid_setter, switch_persona}
use libservice.SignalHandler.{Handler}
use libservice.SignalHandler.Termination.{has_terminating, process_terminated}
use libservice.Daemon.{Globals}
use libservice.Service.{
  Options, CtrlConfig, User, check_options, make_handler, take_pid_file, change_persona, started,
  after_fork, process_id, serve_unless, handler_unless, hook, switch_as,
}

-- The options pass exactly when a daemon has a pid file and a log file, and a control socket has a
-- pid file; otherwise the exit code is 1.
check_options_lem :
    (o : Options)
    → check_options o ≡ (
        if (not o.daemonize || (not (is_empty o.pid_file) && not (is_empty o.log_file)))
          && (is_empty o.ctrl.path || not (is_empty o.pid_file))
        then none
        else some (pos 1))
unfolding check_options
check_options_lem o = ground arith

-- How often the service's `run` was called.
abbrev pub runs_in : Trace → ℕ
runs_in [] = 0
runs_in (run_service ∷ t) = suc (runs_in t)
runs_in (_ ∷ t) = runs_in t

module _ (env : Env) where
  -- A terminate signal that is pending when `start` returns ends the service with code 1, and `run`
  -- is not called.
  started_terminated :
      (user : User) (daemonize : Bool) (g : Globals) (handler : Handler) (h : Trace)
      → has_terminating (user.events h) ≡ true
      → started env user daemonize g handler h ≡ done (pos 1) h
  unfolding started
  started_terminated user daemonize g handler h ending =
      ground (arith, process_terminated (user.events h) handler)

  allocate-NoStart : (path : Text) (h : Trace) → NoStart h (allocate env path h)
  unfolding allocate
  allocate-NoStart path h = ground arith

  take_pid_file-NoStart : (o : Options) (h : Trace) → NoStart h (take_pid_file env o h)
  unfolding take_pid_file
  take_pid_file-NoStart o h = ground (arith, allocate-NoStart o.pid_file h)

  make_handler-NoStart :
      (pid : ℕ) (ctrl : CtrlConfig) (h : Trace) → NoStart h (make_handler env pid ctrl h)
  unfolding make_handler
  make_handler-NoStart pid ctrl h = ground arith

  switch_persona-NoStart :
      (mode : PersonaSwitchMode) (config : Config) (h : Trace)
      → NoStart h (switch_persona env mode config h)
  unfolding switch_persona
  switch_persona-NoStart mode config h = ground arith

  -- No call that changes the user succeeds.
  abbrev pub Refused : Type 0
  Refused =
      (t : Trace) (mode : PersonaSwitchMode) (uid : ℕ)
      → (e : ℕ) × (env.succeeds t (uid_setter mode uid) ≡ fail e)

  never_switches : (t : Trace) → Refused → user_switches env t ≡ 0
  never_switches [] refused = refl
  never_switches (setuid n ∷ t) refused =
      ground (arith, (refused t set_real_id n).1, never_switches t refused)
  never_switches (seteuid n ∷ t) refused =
      ground (arith, (refused t set_effective_id n).1, never_switches t refused)
  never_switches (setreuid n ∷ t) refused =
      ground (arith, (refused t set_effective_and_saved_id n).1, never_switches t refused)
  never_switches (_ ∷ t) refused = never_switches t refused

  switched_once :
      (mode : PersonaSwitchMode) (config : Config) (h : Trace)
      → is_empty config.username ≡ false
      → Returns
          (λ p t. user_switches env t ≡ suc (user_switches env h))
          (switch_persona env mode config h)
  switched_once mode config h named = ground (arith, switch_persona_order env mode config h named)

  never-Returns :
      (r : Run Persona) (n : ℕ)
      → Refused
      → Returns (λ p t. user_switches env t ≡ suc n) r
      → Returns (λ p t. ⊥) r
  never-Returns (done p t) n refused q = omega (arith, never_switches t refused)
  never-Returns (threw e t) n refused q = tt
  never-Returns (quit c t) n refused q = tt
  never-Returns (undefined t) n refused q = tt

  -- The service does not get past the switch: the code 1, or an exception.
  abbrev Stopped : Trace → Run (Option ℤ) → Type 0
  Stopped h r = Returns (λ c t. c ≡ some (pos 1)) r × NoStart h r

  switch_as_refused :
      (user : User) (config : Config) (mode : PersonaSwitchMode) (h : Trace)
      → Refused
      → is_empty config.username ≡ false
      → Stopped h (switch_as env user config mode h)
  unfolding switch_as
  switch_as_refused user config mode h refused named = ground (
    arith,
    switch_persona-NoStart mode config h,
    never-Returns _ _ refused (switched_once mode config h named),
  )

  change_persona_refused :
      (user : User) (config : Config) (h : Trace)
      → Refused
      → is_empty config.username ≡ false
      → Stopped h (change_persona env user config h)
  unfolding change_persona
  change_persona_refused user config h refused named =
      bind_rule (Stopped h) (hook pre_persona_switch user.before_persona)
        (switch_as env user config) h
        (λ mode t e. ground (arith, switch_as_refused user config mode t refused named))
        (λ e t x. ground arith) (λ c t x. ground arith) (λ t x. ground arith)

  take_pid_file_code :
      (o : Options) (h : Trace)
      → Returns (λ r t. (r ≡ none) ⊎ (r ≡ some (pos 1))) (take_pid_file env o h)
  unfolding take_pid_file
  take_pid_file_code o h = ground arith

  -- The service ends without a call of `start`.
  abbrev Ends : Trace → Run ℤ → Type 0
  Ends h r = Returns (λ code t. code ≡ pos 1) r × NoStart h r

  serve_unless_refused :
      (user : User) (o : Options) (g : Globals) (handler : Handler) (c : Option ℤ) (h t : Trace)
      → c ≡ some (pos 1)
      → starts_in t ≡ starts_in h
      → Ends h (serve_unless env user o g handler c t)
  unfolding serve_unless
  serve_unless_refused user o g handler none h t e s = cc
  serve_unless_refused user o g handler (some code) h t e s = (ground arith, s)

  handler_refused :
      (user : User) (o : Options) (g : Globals) (handler : Handler) (h t : Trace)
      → Refused
      → is_empty o.config.username ≡ false
      → starts_in t ≡ starts_in h
      → Ends h ((change_persona env user o.config >>= serve_unless env user o g handler) t)
  handler_refused user o g handler h t refused named s =
      let stopped : Stopped t (change_persona env user o.config t) =
        change_persona_refused user o.config t refused named in
      bind_rule (Ends h) (change_persona env user o.config) (serve_unless env user o g handler) t
        (λ c u e. serve_unless_refused user o g handler c h u (ground arith) (ground arith))
        (λ e u x. ground arith) (λ c u x. ground arith) (λ u x. ground arith)

  handler_unless_refused :
      (user : User) (o : Options) (g : Globals) (r : Option ℤ) (h t : Trace)
      → Refused
      → is_empty o.config.username ≡ false
      → (r ≡ none) ⊎ (r ≡ some (pos 1))
      → starts_in t ≡ starts_in h
      → Ends h (handler_unless env user o g r t)
  unfolding handler_unless
  handler_unless_refused user o g (some code) h t refused named e s = (ground arith, s)
  handler_unless_refused user o g none h t refused named e s =
      let pid : ℕ = process_id (env.getpid t) in
      let made : NoStart t (make_handler env pid o.ctrl t) = make_handler-NoStart pid o.ctrl t in
      bind_rule (Ends h) (make_handler env pid o.ctrl) _ t
        (λ handler u x. handler_refused user o g handler h u refused named (ground arith))
        (λ e u x. ground arith) (λ c u x. ground arith) (λ u x. ground arith)

  -- When no call that changes the user succeeds and the configuration names a user, `operator()`
  -- never calls the service's `start` after its daemonization: it ends with code 1 or by an exception.
  pub after_fork_refused :
      (user : User) (o : Options) (g : Globals) (h : Trace)
      → Refused
      → is_empty o.config.username ≡ false
      → Returns (λ code t. code ≡ pos 1) (after_fork env user o g h)
        × (starts_in (trace_of (after_fork env user o g h)) ≡ starts_in h)
  unfolding after_fork
  after_fork_refused user o g h refused named =
      let taken : NoStart h (take_pid_file env o h) = take_pid_file-NoStart o h in
      let code : Returns (λ r t. (r ≡ none) ⊎ (r ≡ some (pos 1))) (take_pid_file env o h) =
        take_pid_file_code o h in
      bind_rule (Ends h) (take_pid_file env o) (handler_unless env user o g) h
        (λ r t e. handler_unless_refused user o g r h t refused named (rw e at code) (ground arith))
        (λ e t x. ground arith) (λ c t x. ground arith) (λ t x. ground arith)
