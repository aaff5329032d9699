-- ===== src/Service.antt =====
-- service/service.cpp, `Service::operator()`: from the parsed options to the end of the service.
pub mod Startup
pub mod Reports
pub mod Settings
pub mod Signalled
pub mod Refusals
pub mod Prepared
pub mod Success
use libservice.Prelude.{
  ℕ, ℤ, pos, negsuc, Text, Bool, true, false, not, ◌&&◌, ◌||◌, Option, none, some, List, [], ◌∷◌,
  is_empty, if◌then◌else◌, ◌==◌,
}
use libservice.Os.{
  Env, Error, runtime_error, immediate_exit, PersonaSwitchMode, Call, getpwnam, getgrnam, open_ctrl,
  bind_ctrl, remove_all, chown, chmod, pre_daemonize, pre_persona_switch, post_persona_switch,
  start_service, run_service, Trace, done, threw, M, ◌>>=◌, ◌>>◌, pure, throw, catch, catch_std,
  ask, tell, look, attempt,
}
use libservice.PidFile.{allocate}
use libservice.Persona.{Config, Persona, switch_persona, login_env}
use libservice.SignalHandler
use libservice.SignalHandler.{Handler, Event}
use libservice.Daemon.{
  Globals, initial, Outcome, daemon, returns, out_of_fuel, run_in_background, daemonize_finish,
}

-- `CtrlConfig`; an empty path is no control socket, mode 0 leaves the permissions.
pub record CtrlConfig : Type 0 where
  pub path : Text
  pub username : Text
  pub group : Text
  pub mode : ℕ

-- What `configure` leaves of the options and the configuration files.
pub record Options : Type 0 where
  pub daemonize : Bool
  pub daemonize_nochdir : Bool
  pub daemonize_noclose : Bool
  pub pid_file : Text
  pub log_file : Text
  pub ctrl : CtrlConfig
  pub config : Config

-- How a virtual function of the service ends.
pub data Hook {ℓ} (A : Type ℓ) : Type ℓ where
  gives : A → Hook A
  raises : Error → Hook A

-- The service that derives from `Service`. Its functions may change the handler, through `stop`,
-- `globalTerminate` and `registerSignal`; signals and connections that are ready when the handler is
-- polled come from `events`.
pub record User : Type 0 where
  pub before_daemonize : Trace → Bool → Hook (Unit {0})
  pub before_persona : Trace → Hook PersonaSwitchMode
  pub after_persona : Trace → Hook (Unit {0})
  pub start : Trace → Handler → Hook Handler
  pub run : Trace → Handler → Hook ℤ
  pub events : Trace → List Event

abbrev pub hook {ℓ} : {A : Type ℓ} → Call → (Trace → Hook A) → M A
hook c f h = elim (f h) [ gives a ↦ done a (c ∷ h) | raises e ↦ threw e (c ∷ h) ]

-- A process id as the handler keeps it.
abbrev pub process_id : ℤ → ℕ
process_id (pos n) = n
process_id (negsuc n) = 0

-- The checks on the options: the exit code when the service cannot run with them.
unfoldable pub check_options : Options → Option ℤ
check_options o =
    if o.daemonize && (is_empty o.pid_file || is_empty o.log_file)
    then some (pos 1)
    else (if is_empty o.pid_file && not (is_empty o.ctrl.path) then some (pos 1) else none)

-- `absolute` of boost::filesystem, over the paths that are given.
pub make_absolute : (Text → Text) → Options → Options
make_absolute absolute o =
    let ctrl : CtrlConfig = o.ctrl in
    record o {
      pid_file = if is_empty o.pid_file then o.pid_file else absolute o.pid_file;
      ctrl = record ctrl { path = if is_empty ctrl.path then ctrl.path else absolute ctrl.path };
    }

module _ (env : Env) where
  -- `username2uid` and `group2gid`: -1, which leaves the id, for an empty name.
  username2uid : Text → M ℤ
  username2uid name = if is_empty name then pure (negsuc 0) else (do
    r ← ask (getpwnam name) (λ h. env.users h name)
    elim r [ none ↦ throw runtime_error | some pwd ↦ pure (pos pwd.uid) ])

  group2gid : Text → M ℤ
  group2gid name = if is_empty name then pure (negsuc 0) else (do
    r ← ask (getgrnam name) (λ h. env.groups h name)
    elim r [ none ↦ throw runtime_error | some gid ↦ pure (pos gid) ])

  change_mode : CtrlConfig → M (Unit {0})
  change_mode ctrl = if ctrl.mode == 0 then pure tt else attempt env (chmod ctrl.path ctrl.mode)

  open_socket : CtrlConfig → M (Unit {0})
  unfolding username2uid group2gid change_mode
  open_socket ctrl = do
    attempt env (open_ctrl ctrl.path)
    attempt env (bind_ctrl ctrl.path)
    uid ← username2uid ctrl.username
    gid ← group2gid ctrl.group
    attempt env (chown ctrl.path uid gid)
    change_mode ctrl

  -- The constructor of `SignalHandler`; `optional` turns an empty path into none.
  pub make_handler : ℕ → CtrlConfig → M Handler
  unfolding open_socket
  make_handler pid ctrl =
      if is_empty ctrl.path
      then pure (SignalHandler.init pid none)
      else (do open_socket ctrl; pure (SignalHandler.init pid (some ctrl.path)))

  -- Allocating the pid file, and clearing the way for the control socket.
  pub take_pid_file : Options → M (Option ℤ)
  take_pid_file o = if is_empty o.pid_file then pure none else (do
    r ← catch_std (do allocate env o.pid_file; pure none) (pure (some (pos 1)))
    elim r [
      | some code ↦ pure (some code)
      | none ↦
          if is_empty o.ctrl.path
          then pure none
          else (do attempt env (remove_all o.ctrl.path); pure none)
    ])

  -- The switch and the login environment: an exception becomes the exit code 1.
  switch_as : User → Config → PersonaSwitchMode → M (Option ℤ)
  switch_as user config mode = do
    r ←
        catch_std (do p ← switch_persona env mode config; login_env env config p; pure none)
          (pure (some (pos 1)))
    elim r [
      | some code ↦ pure (some code)
      | none ↦ (do hook post_persona_switch user.after_persona; pure none)
    ]

  -- The persona switch: `none`, or the code with which `operator()` returns.
  pub change_persona : User → Config → M (Option ℤ)
  change_persona user config = do
    mode ← hook pre_persona_switch user.before_persona
    switch_as user config mode

  -- `start()`: an `immediate_exit` gives the code to return, any other exception passes.
  start_user : User → Handler → M (Hook Handler)
  start_user user handler =
      catch (do h ← hook start_service (λ t. user.start t handler); pure (gives h))
        (λ e. elim e [
          | immediate_exit code ↦ pure (raises (immediate_exit code))
          | other ↦ throw other
        ])

  finish_start : Bool → Globals → M (Unit {0})
  finish_start daemonize g = if daemonize then (do daemonize_finish env g; pure tt) else pure tt

  -- The check after `start()`, and `run()`.
  pub started : User → Bool → Globals → Handler → M ℤ
  unfolding finish_start
  started user daemonize g handler = do
    p ← look (λ t. SignalHandler.process (user.events t) handler)
    if p.terminated
        then pure (pos 1)
        else (do finish_start daemonize g; hook run_service (λ t. user.run t p.handler))

  -- The service proper: every terminate signal to this process ends all of it.
  pub serve : User → Bool → Globals → Handler → M ℤ
  unfolding start_user started
  serve user daemonize g handler = do
    r ← start_user user (SignalHandler.start (SignalHandler.global_terminate true 0 handler))
    elim r [
      | raises e ↦ elim e [ immediate_exit code ↦ pure code | other ↦ throw other ]
      | gives h ↦ started user daemonize g h
    ]

  -- The parts of `operator()` after the daemonization, each unless the one before has a code.
  serve_unless : User → Options → Globals → Handler → Option ℤ → M ℤ
  serve_unless user o g handler (some code) = pure code
  serve_unless user o g handler none = serve user o.daemonize g handler

  handler_unless : User → Options → Globals → Option ℤ → M ℤ
  handler_unless user o g (some code) = pure code
  handler_unless user o g none = do
    pid ← look env.getpid
    handler ← make_handler (process_id pid) o.ctrl
    c ← change_persona user o.config
    serve_unless user o g handler c

  pub after_fork : User → Options → Globals → M ℤ
  after_fork user o g = do r ← take_pid_file o; handler_unless user o g r

  -- `none` when the fuel of a process that waits runs out.
  pub daemonized : User → ℕ → Options → M (Option ℤ)
  daemonized user fuel o =
      if o.daemonize
      then (do
        r ← run_in_background env fuel o.daemonize_nochdir (initial o.daemonize_noclose)
        elim r [
          | returns code ↦ pure (some code)
          | out_of_fuel ↦ pure none
          | daemon g ↦ (do c ← after_fork user o g; pure (some c))
        ])
      else (do c ← after_fork user o (initial o.daemonize_noclose); pure (some c))

  -- The first part of `operator()`: the options, or the code with which it returns.
  unfoldable pub configure_checked : (Text → Text) → M Options → M (Hook Options)
  configure_checked absolute configured =
      catch
        (do
          o ← configured
          elim (check_options o) [
            | some code ↦ throw (immediate_exit code)
            | none ↦ pure (gives (make_absolute absolute o))
          ])
        (λ e. elim e [
          | immediate_exit code ↦ pure (raises (immediate_exit code))
          | other ↦ throw other
        ])

  after_checks : User → ℕ → Hook Options → M (Option ℤ)
  unfolding daemonized
  after_checks user fuel (raises e) = elim e [
    | immediate_exit code ↦ pure (some code)
    | other ↦ throw other
  ]
  after_checks user fuel (gives o) = do
    hook (pre_daemonize o.daemonize) (λ t. user.before_daemonize t o.daemonize)
    daemonized user fuel o

  -- `operator()`. `configured` is the run of `Program::configure`.
  unfoldable pub run_operator : User → (Text → Text) → ℕ → M Options → M (Option ℤ)
  unfolding configure_checked after_checks
  run_operator user absolute fuel configured = do
    r ← configure_checked absolute configured
    after_checks user fuel r
