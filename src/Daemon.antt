-- ===== src/Daemon.antt =====
-- service/service.cpp: going to the background. `fork` returns in one process of a run; the other
-- processes are other runs, under environments that answer differently.
pub mod Processes
pub mod Starting
use libservice.Prelude.{
  ℕ, zero, suc, ℤ, pos, negsuc, Text, lit, Bool, true, false, not, Option, none, some, List, [],
  ◌∷◌, if◌then◌else◌, is_negative,
}
use libservice.Os.{
  Env, Error, Call, close_fd, chdir, pipe, fork, setsid, register_atfork, read_pipe, open_null,
  dup_to_stdin, tie, log_console, Answer, ok, fail, ForkResult, fork_failed, in_parent, in_child,
  ReadResult, bytes_read, end_of_file, interrupted, read_error, Trace, Run, undefined, M, ◌>>=◌,
  ◌>>◌, pure, exit_now, ask, tell, try_call,
}

-- The file-level variables of service.cpp, as one process has them. -1 is no notifier.
pub record Globals : Type 0 where
  pub daemonize_noclose : Bool
  pub notifier_fd : ℤ
  pub daemonize_finish_run : Bool

abbrev pub initial : Bool → Globals
initial noclose = record {
  daemonize_noclose = noclose;
  notifier_fd = negsuc 0;
  daemonize_finish_run = false;
}

-- `isRunning` of the master reads through the pointer to the signal handler, which `operator()` sets
-- only after the daemonization: a null pointer here.
abbrev pub read_null_handler {ℓ} : {A : Type ℓ} → M A
read_null_handler h = undefined h

close_notifier : ℤ → M (Unit {0})
close_notifier (pos fd) = tell (close_fd fd)
close_notifier (negsuc n) = pure tt

-- The daemonization of `operator()`. Only the daemon comes out of it with its variables, or the
-- starting process when its fork fails, with the code that `operator()` then returns.
pub data Outcome : Type 0 where
  daemon : Globals → Outcome
  returns : ℤ → Outcome
  out_of_fuel : Outcome

abbrev as_outcome : Option Globals → Outcome
as_outcome none = out_of_fuel
as_outcome (some g) = daemon g

module _ (env : Env) where
  -- `waitForChildInitialization`. `none` when the fuel runs out.
  unfoldable pub wait_for_child : ℕ → ℕ → M (Option Bool)
  wait_for_child zero fd = pure none
  wait_for_child (suc fuel) fd =
      let again = wait_for_child fuel fd in
      do
        r ← ask (read_pipe fd) (λ h. env.reads h fd)
        elim r [
          | bytes_read ↦ again
          | end_of_file ↦ pure (some true)
          | interrupted ↦ read_null_handler
          | read_error e ↦ pure (some false)
        ]

  replace_standard_streams : M (Unit {0})
  replace_standard_streams = do
    null ← ask open_null env.opens_null
    tell (dup_to_stdin null)
    tell (tie 1)
    tell (tie 2)

  unfoldable pub daemonize_finish : Globals → M Globals
  unfolding replace_standard_streams close_notifier
  daemonize_finish g = do
    if g.daemonize_noclose then pure tt else replace_standard_streams
    tell (log_console false)
    close_notifier g.notifier_fd
    pure (record g { daemonize_finish_run = true })

  -- What runs in a child that the service forks.
  pub service_atfork : Globals → M Globals
  unfolding daemonize_finish
  service_atfork g = if g.daemonize_finish_run then pure g else daemonize_finish g

  -- A process that waits for the next one and leaves with the result as its exit code.
  wait_and_exit : ℕ → ℕ → M (Option Globals)
  wait_and_exit fuel fd = do
    r ← wait_for_child fuel fd
    elim r [ none ↦ pure none | some ready ↦ exit_now (if ready then pos 0 else pos 1) ]

  -- The daemon itself closes what belongs to the others.
  become_daemon : Globals → ℕ × ℕ → ℕ × ℕ → M (Option Globals)
  become_daemon g notifier1 notifier2 = do
    tell (close_fd notifier1.0)
    tell (close_fd notifier1.1)
    tell (close_fd notifier2.0)
    r ← try_call env register_atfork
    elim r [
      | ok u ↦ pure (some (record g { notifier_fd = pos notifier2.1 }))
      | fail e ↦ exit_now (pos 1)
    ]

  -- The intermediate process: a session of its own, and a second fork.
  intermediate : ℕ → Globals → ℕ × ℕ → ℕ × ℕ → M (Option Globals)
  unfolding wait_and_exit become_daemon
  intermediate fuel g notifier1 notifier2 = do
    s ← try_call env setsid
    elim s [
      | fail e ↦ exit_now (pos 1)
      | ok u ↦ (do
        p ← ask fork env.forks
        elim p [
          | fork_failed e ↦ exit_now (pos 1)
          | in_parent pid ↦ (do tell (close_fd notifier2.1); wait_and_exit fuel notifier2.0)
          | in_child ↦ become_daemon g notifier1 notifier2
        ])
    ]

  open_pipe : M (ℕ × ℕ)
  open_pipe = do r ← ask pipe env.pipes; elim r [ ok fds ↦ pure fds | fail e ↦ exit_now (pos 1) ]

  leave_directory : Bool → M (Unit {0})
  leave_directory nochdir =
      if nochdir then pure tt else (do try_call env (chdir (lit "/")); pure tt)

  starter : ℕ → Globals → ℕ × ℕ → ℕ × ℕ → M Outcome
  unfolding wait_and_exit intermediate
  starter fuel g notifier1 notifier2 = do
    p ← ask fork env.forks
    elim p [
      | fork_failed e ↦ pure (returns (pos 1))
      | in_parent pid ↦ (do
        tell (close_fd notifier1.1)
        tell (close_fd notifier2.0)
        tell (close_fd notifier2.1)
        r ← wait_and_exit fuel notifier1.0
        pure (as_outcome r))
      | in_child ↦ (do r ← intermediate fuel g notifier1 notifier2; pure (as_outcome r))
    ]

  unfoldable pub run_in_background : ℕ → Bool → Globals → M Outcome
  unfolding open_pipe leave_directory starter
  run_in_background fuel nochdir g = do
    leave_directory nochdir
    notifier1 ← open_pipe
    notifier2 ← open_pipe
    starter fuel g notifier1 notifier2
