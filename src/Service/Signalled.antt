-- ===== src/Service/Signalled.antt =====
-- service/service.cpp, `Service::preConfigHook` in `Program::configureImpl`: a service that is called
-- with `--signal`.
use libservice.Prelude.{ℕ, Text, lit, Option, none, some, List, [], ◌∷◌, ◌≡◌, arith, if◌then◌else◌}
use libservice.Os.{
  Env, Error, immediate_exit, Trace, Run, done, threw, quit, undefined, Returns, M, ◌>>=◌, pure,
  catch_std, catch_rule, ask, read_steady_clock, usleep, tell,
}
use libservice.Os
use libservice.SendSignal.{pre_config_hook}
use libservice.Program.Options.{Po, Derived}
use libservice.Program.Files.{first_text}
use libservice.Program.Stored.{StoreLaws, Has, GivenBy, parse_command_line-Has}
use libservice.Program.Quietness.{Quiet, Stops}
use libservice.Program.Stopping.{run_operator-Quiet}
use libservice.SendSignal.Quietness.{pre_config_hook-Quiet}
use libservice.Service.{User}
use libservice.Service.Settings.{options_of, operator_call}

-- The value of an option that is counted.
abbrev pub option_text : {V : Type 0} → Po V → Text → V → Option Text
option_text po k vm = if po.count k vm then some (first_text (po.texts k vm)) else none

-- A wait that is longer than the fuel has no result.
abbrev pub waited : Option (Unit {0}) → M (Unit {0})
waited none h = Os.undefined h
waited (some u) h = Os.done u h

-- The hook over a variable map.
unfoldable pub signal_hook : {V : Type 0} → Env → Po V → ℕ → V → M (Unit {0})
signal_hook env po fuel vm = do
  r ←
      pre_config_hook env fuel (option_text po (lit "signal") vm)
        (option_text po (lit "pidfile") vm)
  waited r

module _ {V : Type 0} (env : Env) (po : Po V) (laws : StoreLaws po) (arg : Text) where
  signal_hook-Stops :
      (fuel : ℕ) (vm : V) (t : Trace)
      → Has laws (lit "signal") (arg ∷ []) vm
      → Stops t (signal_hook env po fuel vm t)
  unfolding signal_hook
  signal_hook-Stops fuel vm t has =
      rw (laws.counts (lit "signal") (arg ∷ []) vm has) (go (option_text po (lit "pidfile") vm))
    where
      go :
          (pid_file : Option Text)
          → Stops t (
              (do
                r ←
                    pre_config_hook env fuel
                      (some (first_text (po.texts (lit "signal") vm)))
                      pid_file
                waited r)
                t)
      go pid_file = ground (
        arith,
        pre_config_hook-Quiet env fuel (first_text (po.texts (lit "signal") vm)) pid_file t,
      )

  -- A service that keeps the hook of `Service`, and whose command line gives `--signal`, never starts,
  -- whatever else the command line and the files say, whatever the signalled instance does and however
  -- long the hook waits: it reads no configuration file, leaves the log alone, does not fork, and neither
  -- starts nor runs, where its licence check makes no such call.
  pub operator_call-signal_hook :
      (octal : Text → ℕ) (d : Derived V) (user : User) (fuel rounds : ℕ) (args : List Text)
      (h : Trace)
      → d.pre_config_hook ≡ signal_hook env po rounds
      → ((t : Trace) → Quiet t (d.licence_check t))
      → GivenBy laws (lit "signal") (arg ∷ []) d args
      → Quiet h (operator_call po octal env d user fuel args h)
  unfolding operator_call
  operator_call-signal_hook octal d user fuel rounds args h service quiet given =
      run_operator-Quiet env po d (Has laws (lit "signal") (arg ∷ [])) quiet
        (λ vm t has. rw service (signal_hook-Stops rounds vm t has)) user env.absolute fuel
        (options_of po octal) args h
        (parse_command_line-Has env po laws (lit "signal") (arg ∷ []) d args h given)
