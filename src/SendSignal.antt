-- ===== src/SendSignal.antt =====
-- service/service.cpp: `--signal`, the command that signals the running instance of the service.

pub mod Parsing
pub mod Codes
pub mod Leaving
pub mod Quietness
use libservice.Prelude.{
  ℕ, zero, suc, ◌+◌, ◌*◌, ℤ, pos, negsuc, is_zero, is_negative, Text, lit, text_eq, Bool, true,
  false, Option, none, some, List, [], ◌∷◌, ◌==◌, leb, if◌then◌else◌,
}
use libservice.Os.{
  Env, immediate_exit, read_steady_clock, usleep, M, ◌>>=◌, ◌>>◌, pure, throw, catch_std, ask, tell,
}
use libservice.PidFile.{signal}

-- `signo` of `SIGHUP`, `SIGUSR1` and `SIGTERM`, and the number that only probes.
abbrev pub stop : ℕ
stop = 15

abbrev pub logrotate : ℕ
logrotate = 1

abbrev pub stat : ℕ
stat = 10

abbrev pub status : ℕ
status = 0

pub record SigDef : Type 0 where
  pub name : Text
  pub signo : ℕ
  pub timeout : ℤ

-- `find('/')` and the two `substr` calls: the text before the first slash, and the text after it.
pub split_slash : Text → Text × Option Text
split_slash [] = ([], none)
split_slash (c ∷ s) =
    let rest = split_slash s in if c == b'/' then ([], some s) else (c ∷ rest.0, rest.1)

-- The chain of comparisons. In the last branch `service::immediate_exit(3)` makes a value of the
-- exception's type and drops it, so that the number keeps its initial value, 0.
pub signo_of : Text → ℕ
signo_of name =
    if text_eq name (lit "stop")
    then stop
    else (if text_eq name (lit "logrotate")
        then logrotate
        else (if text_eq name (lit "status")
            then status
            else (if text_eq name (lit "stat") then stat else 0)))

module _ (env : Env) where
  -- The timeout is read for `stop` alone; where it is no number it keeps its initial value, -1.
  pub timeout_of : ℕ → Option Text → ℤ
  timeout_of signo none = negsuc 0
  timeout_of signo (some s) =
      if signo == stop then elim (env.cast_time s) [ some t ↦ t | none ↦ negsuc 0 ] else negsuc 0

  pub parse_sig_def : Text → SigDef
  unfolding signo_of timeout_of
  parse_sig_def sig_def =
      let (name, rest) = split_slash sig_def in
      record { name = name; signo = signo_of name; timeout = timeout_of (signo_of name) rest }

  -- The rounds of `waitForStop`. `none` when the fuel runs out.
  pub stop_rounds : ℕ → Text → ℕ → ℕ → Bool → M (Option ℤ)
  stop_rounds zero path signo deadline first = pure none
  stop_rounds (suc fuel) path signo deadline first =
      let next = stop_rounds fuel path signo deadline false in
      do
        pid ← signal env path signo false
        if is_zero pid then pure (some (if first then pos 1 else pos 0)) else (do
          now ← ask read_steady_clock env.steady
          if leb deadline now then pure (some (pos 2)) else (do tell (usleep 100000); next))

  pub wait_for_stop : ℕ → Text → ℕ → ℕ → M (Option ℤ)
  unfolding stop_rounds
  wait_for_stop fuel path signo timeout =
      catch_std
        (do
          now ← ask read_steady_clock env.steady
          stop_rounds fuel path signo (now + timeout * 1000000000) true)
        (pure (some (pos 3)))

  pub process_status : Text → ℕ → M ℤ
  process_status path signo =
      catch_std
        (do
          pid ← signal env path signo true
          pure (if is_zero pid then pos 1 else (if is_negative pid then pos 3 else pos 0)))
        (pure (pos 4))

  -- Every signal that is neither a stop with a timeout nor the probe.
  pub deliver_signal : Text → ℕ → M ℤ
  deliver_signal path signo =
      catch_std (do pid ← signal env path signo false; pure (if is_zero pid then pos 1 else pos 0))
        (pure (pos 3))

  pub send_stop : ℕ → Text → ℕ → ℤ → M (Option ℤ)
  unfolding wait_for_stop deliver_signal
  send_stop fuel path signo (pos timeout) = wait_for_stop fuel path signo timeout
  send_stop fuel path signo (negsuc n) = do c ← deliver_signal path signo; pure (some c)

  -- `sendSignal`: the exit code of the command.
  pub send_signal : ℕ → Text → Text → M (Option ℤ)
  unfolding parse_sig_def send_stop process_status deliver_signal
  send_signal fuel path arg =
      let def = parse_sig_def arg in
      if def.signo == stop
      then send_stop fuel path def.signo def.timeout
      else (if def.signo == status
          then (do c ← process_status path def.signo; pure (some c))
          else (do c ← deliver_signal path def.signo; pure (some c)))

  -- `Service::preConfigHook` over the options `signal` and `pidfile`. It returns on a normal startup,
  -- with `none` when the fuel of a waiting stop runs out.
  pub pre_config_hook : ℕ → Option Text → Option Text → M (Option (Unit {0}))
  unfolding send_signal
  pre_config_hook fuel none none = pure (some tt)
  pre_config_hook fuel none (some path) = do
    pid ← signal env path 0 false
    if is_zero pid then pure (some tt) else throw (immediate_exit (pos 1))
  pre_config_hook fuel (some arg) none = throw (immediate_exit (pos 1))
  pre_config_hook fuel (some arg) (some path) = do
    r ← send_signal fuel path arg
    elim r [ some code ↦ throw (immediate_exit code) | none ↦ pure none ]
