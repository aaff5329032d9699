-- ===== src/Service/Prepared.antt =====
-- service/service.cpp, `operator()` after the daemonization: what is done when the service starts.
use libservice.Prelude.{
  ℕ, suc, ℤ, Text, Bool, true, false, not, ◌&&◌, ◌||◌, Option, none, some, [], ◌∷◌, ◌≡◌, refl,
  arith, ltb, is_empty, if◌then◌else◌,
}
use libservice.Os.{
  Env, Returns-of, PersonaSwitchMode, start_service, pre_persona_switch, Trace, Run, M, pure, throw,
  immediate_exit, Returns, Same, trace_of, bind_rule, ◌>>=◌,
}
use libservice.PidFile.{allocate}
use libservice.PidFile.Held.{is_held, allocate_held}
use libservice.Persona.{Persona, switch_persona, login_env}
use libservice.SignalHandler
use libservice.SignalHandler.{Handler}
use libservice.Persona.Switching.{user_switches, switch_persona_order}
use libservice.Daemon.{Globals, daemonize_finish}
use libservice.Service.{
  Hook, gives, raises, process_id, Options, User, make_handler, take_pid_file, change_persona,
  serve, serve_unless, handler_unless, after_fork, switch_as, start_user, started, hook,
}

module _ (env : Env) where
  module _ (takes : Trace → Text → Text → Bool) (user : User) (o : Options) (g : Globals)
      (h : Trace) where
    abbrev has_pid_file : Trace → Bool
    has_pid_file t = is_empty o.pid_file || is_held env takes o.pid_file t

    abbrev has_switched : Trace → Bool
    has_switched t = is_empty o.config.username || ltb (user_switches env h) (user_switches env t)

    -- The calls of `start` at which the pid file was not ours, or the user was not switched, though the
    -- options ask for it.
    abbrev pub unprepared_starts : Trace → ℕ
    unprepared_starts [] = 0
    unprepared_starts (start_service ∷ t) =
        let before = unprepared_starts t in
        if has_pid_file t && has_switched t then before else suc before
    unprepared_starts (_ ∷ t) = unprepared_starts t

    -- Clearing the way for the control socket, with all that is below its path, leaves the pid file.
    abbrev pub Apart : Type 0
    Apart = (t : Trace) → (is_empty o.ctrl.path || not (takes t o.ctrl.path o.pid_file)) ≡ true

    allocate-unprepared : (t : Trace) → Same unprepared_starts t (allocate env o.pid_file t)
    unfolding allocate
    allocate-unprepared t = ground arith

    allocate-switches : (t : Trace) → Same (user_switches env) t (allocate env o.pid_file t)
    unfolding allocate
    allocate-switches t = ground arith

    -- The first part leaves the user alone, and goes on only with the pid file.
    abbrev Taken : Trace → Run (Option ℤ) → Type 0
    Taken t r =
        Same unprepared_starts t r
        × Same (user_switches env) t r
        × Returns (λ c u. c ≡ none → has_pid_file u ≡ true) r

    take_pid_file-Taken : (t : Trace) → Apart → Taken t (take_pid_file env o t)
    unfolding take_pid_file
    take_pid_file-Taken t apart = grind (
      arith,
      apart,
      allocate_held env takes o.pid_file t,
      allocate-unprepared t,
      allocate-switches t,
    )

    -- A part that leaves the pid file, the user and the starts alone.
    abbrev Keeps {ℓ} : {A : Type ℓ} → Trace → Run A → Type 0
    Keeps t r =
        Same unprepared_starts t r
        × Same (user_switches env) t r
        × Same (is_held env takes o.pid_file) t r

    make_handler-Keeps : (pid : ℕ) (t : Trace) → Keeps t (make_handler env pid o.ctrl t)
    unfolding make_handler
    make_handler-Keeps pid t = ground arith

    -- The second part leaves the pid file alone, and goes on only as the user.
    abbrev Switched : Trace → Run (Option ℤ) → Type 0
    Switched t r =
        Same unprepared_starts t r
        × Same (is_held env takes o.pid_file) t r
        × Returns
            (λ c u.
              c ≡ none
              → is_empty o.config.username ≡ false
              → user_switches env u ≡ suc (user_switches env t))
            r

    login_env-Keeps : (p : Persona) (t : Trace) → Keeps t (login_env env o.config p t)
    unfolding login_env
    login_env-Keeps p t = ground arith

    switch_persona-Keeps :
        (mode : PersonaSwitchMode) (t : Trace)
        → Same unprepared_starts t (switch_persona env mode o.config t)
          × Same (is_held env takes o.pid_file) t (switch_persona env mode o.config t)
    unfolding switch_persona
    switch_persona-Keeps mode t = ground arith

    switched_once :
        (mode : PersonaSwitchMode) (t : Trace)
        → Returns
            (λ p u.
              is_empty o.config.username ≡ false → user_switches env u ≡ suc (user_switches env t))
            (switch_persona env mode o.config t)
    switched_once mode t =
        Returns-of (switch_persona env mode o.config t)
          (λ p u e named. (rw e at (switch_persona_order env mode o.config t named)).1)

    switch_as-Switched :
        (mode : PersonaSwitchMode) (t : Trace) → Switched t (switch_as env user o.config mode t)
    unfolding switch_as
    switch_as-Switched mode t =
        grind (arith, switch_persona-Keeps mode t, switched_once mode t, login_env-Keeps)

    change_persona-Switched : (t : Trace) → Switched t (change_persona env user o.config t)
    unfolding change_persona
    change_persona-Switched t =
        bind_rule (Switched t) (hook pre_persona_switch user.before_persona)
          (switch_as env user o.config) t (λ mode u e. ground (arith, switch_as-Switched mode u))
          (λ e u x. ground arith) (λ c u x. ground arith) (λ u x. ground arith)

    daemonize_finish-unprepared : (t : Trace) → Same unprepared_starts t (daemonize_finish env g t)
    unfolding daemonize_finish
    daemonize_finish-unprepared t = ground arith

    started-unprepared :
        (handler : Handler) (t : Trace)
        → Same unprepared_starts t (started env user o.daemonize g handler t)
    unfolding started
    started-unprepared handler t = ground (arith, daemonize_finish-unprepared t)

    -- The service starts at once.
    start_user-trace :
        (handler : Handler) (t : Trace)
        → trace_of (start_user env user handler t) ≡ start_service ∷ t
    unfolding start_user
    start_user-trace handler t = ground arith

    serve-unprepared :
        (handler : Handler) (t : Trace)
        → has_pid_file t ≡ true
        → has_switched t ≡ true
        → Same unprepared_starts t (serve env user o.daemonize g handler t)
    unfolding serve
    serve-unprepared handler t held switched =
        bind_rule (Same unprepared_starts t) (start_user env user begun) _ t
          (λ r u e. after r u (rw e at calls)) (λ e u x. starting u (rw x at calls))
          (λ c u x. starting u (rw x at calls)) (λ u x. starting u (rw x at calls))
      where
        begun : Handler
        begun = SignalHandler.start (SignalHandler.global_terminate true 0 handler)

        calls : trace_of (start_user env user begun t) ≡ start_service ∷ t
        calls = start_user-trace begun t

        starting : (u : Trace) → u ≡ start_service ∷ t → unprepared_starts u ≡ unprepared_starts t
        starting u e = rw e (ground (arith, held, switched))

        after :
            (r : Hook Handler) (u : Trace)
            → u ≡ start_service ∷ t
            → Same unprepared_starts t (
                (elim r as (λ x. M ℤ) [
                  | raises e ↦ elim e [ immediate_exit code ↦ pure code | other ↦ throw other ]
                  | gives x ↦ started env user o.daemonize g x
                ])
                  u)
        after (raises e) u q = ground (arith, starting u q)
        after (gives x) u q = ground (arith, starting u q, started-unprepared x u)

    -- Three parts, each of which may end the service.
    serve_unless-unprepared :
        (handler : Handler) (c : Option ℤ) (t : Trace)
        → (c ≡ none → has_pid_file t ≡ true)
        → (c ≡ none → has_switched t ≡ true)
        → Same unprepared_starts t (serve_unless env user o g handler c t)
    unfolding serve_unless
    serve_unless-unprepared handler none t held switched =
        serve-unprepared handler t (held refl) (switched refl)
    serve_unless-unprepared handler (some code) t held switched = refl

    handler-unprepared :
        (handler : Handler) (t : Trace)
        → has_pid_file t ≡ true
        → unprepared_starts t ≡ unprepared_starts h
        → user_switches env t ≡ user_switches env h
        → Same unprepared_starts h
            ((change_persona env user o.config >>= serve_unless env user o g handler) t)
    handler-unprepared handler t held same switches =
        let part : Switched t (change_persona env user o.config t) = change_persona-Switched t in
        bind_rule (Same unprepared_starts h) (change_persona env user o.config)
          (serve_unless env user o g handler) t
          (λ c u e. ground (arith, rw e at part, serve_unless-unprepared handler c u))
          (λ e u x. ground arith) (λ c u x. ground arith) (λ u x. ground arith)

    handler_unless-unprepared :
        (r : Option ℤ) (t : Trace)
        → (r ≡ none → has_pid_file t ≡ true)
        → unprepared_starts t ≡ unprepared_starts h
        → user_switches env t ≡ user_switches env h
        → Same unprepared_starts h (handler_unless env user o g r t)
    unfolding handler_unless
    handler_unless-unprepared (some code) t held same switches = same
    handler_unless-unprepared none t held same switches =
        let pid : ℕ = process_id (env.getpid t) in
        let made : Keeps t (make_handler env pid o.ctrl t) = make_handler-Keeps pid t in
        bind_rule (Same unprepared_starts h) (make_handler env pid o.ctrl) _ t
          (λ handler u e. ground (
            arith,
            held refl,
            handler-unprepared handler u (ground (arith, held refl, rw e at made))
                (ground (arith, rw e at made)) (ground (arith, rw e at made)),
          ))
          (λ e u x. ground arith) (λ c u x. ground arith) (λ u x. ground arith)

    -- A service does not start unprepared: at each call of `start` after the daemonization, the pid file
    -- that the options name is this process's own, created by it, locked, and with its process id written
    -- to it, and where they name a user a call that changes the user has succeeded, whatever the
    -- environment answers, where removing what stands at the path of the control socket, with all that is
    -- below it, leaves the pid file.
    pub after_fork_prepared : Apart → Same unprepared_starts h (after_fork env user o g h)
    unfolding after_fork
    after_fork_prepared apart =
        let part : Taken h (take_pid_file env o h) = take_pid_file-Taken h apart in
        bind_rule (Same unprepared_starts h) (take_pid_file env o) (handler_unless env user o g) h
          (λ r t e.
            handler_unless-unprepared r t (rw e at part).2 (ground (arith, rw e at part))
              (ground (arith, rw e at part)))
          (λ e u x. ground arith) (λ c u x. ground arith) (λ u x. ground arith)
