-- ===== src/SendSignal/Quietness.antt =====
-- service/service.cpp: `--signal` does not go on with the start of the service.
use libservice.Prelude.{
  ℕ, zero, suc, ℤ, pos, negsuc, Text, Bool, true, false, Option, none, some, ◌∷◌, ◌+◌, ◌*◌, ◌≡◌,
  refl, arith,
}
use libservice.Os.{Env, Returns, Trace, read_steady_clock, usleep}
use libservice.PidFile.{signal}
use libservice.Program.Quietness.{Quiet, Quiet-bind}
use libservice.SendSignal.{
  parse_sig_def, stop_rounds, wait_for_stop, process_status, deliver_signal, send_stop, send_signal,
  pre_config_hook,
}

module _ (env : Env) where
  signal-Quiet :
      (path : Text) (signo : ℕ) (report : Bool) (h : Trace)
      → Quiet h (signal env path signo report h)
  unfolding signal
  signal-Quiet path signo report h = ground arith

  stop_rounds-Quiet :
      (fuel : ℕ) (path : Text) (signo deadline : ℕ) (first : Bool) (h : Trace)
      → Quiet h (stop_rounds env fuel path signo deadline first h)
  unfolding stop_rounds
  stop_rounds-Quiet zero path signo deadline first h = refl
  stop_rounds-Quiet (suc fuel) path signo deadline first h =
      Quiet-bind (signal env path signo false) _ h (signal-Quiet path signo false h) (λ pid t.
        ground (
          arith,
          stop_rounds-Quiet fuel path signo deadline false
              (usleep 100000 ∷ (read_steady_clock ∷ t)),
        ))

  wait_for_stop-Quiet :
      (fuel : ℕ) (path : Text) (signo timeout : ℕ) (h : Trace)
      → Quiet h (wait_for_stop env fuel path signo timeout h)
  unfolding wait_for_stop
  wait_for_stop-Quiet fuel path signo timeout h =
      let deadline : ℕ = env.steady h + timeout * 1000000000 in
      ground (arith, stop_rounds-Quiet fuel path signo deadline true (read_steady_clock ∷ h))

  deliver_signal-Quiet :
      (path : Text) (signo : ℕ) (h : Trace) → Quiet h (deliver_signal env path signo h)
  unfolding deliver_signal
  deliver_signal-Quiet path signo h = ground (arith, signal-Quiet path signo false h)

  process_status-Quiet :
      (path : Text) (signo : ℕ) (h : Trace) → Quiet h (process_status env path signo h)
  unfolding process_status
  process_status-Quiet path signo h = ground (arith, signal-Quiet path signo true h)

  send_stop-Quiet :
      (fuel : ℕ) (path : Text) (signo : ℕ) (timeout : ℤ) (h : Trace)
      → Quiet h (send_stop env fuel path signo timeout h)
  unfolding send_stop
  send_stop-Quiet fuel path signo (pos timeout) h = wait_for_stop-Quiet fuel path signo timeout h
  send_stop-Quiet fuel path signo (negsuc n) h = ground (arith, deliver_signal-Quiet path signo h)

  pub send_signal-Quiet :
      (fuel : ℕ) (path arg : Text) (h : Trace) → Quiet h (send_signal env fuel path arg h)
  unfolding send_signal
  send_signal-Quiet fuel path arg h =
      let signo : ℕ = (parse_sig_def env arg).signo in
      ground (
        arith,
        send_stop-Quiet fuel path signo (parse_sig_def env arg).timeout h,
        process_status-Quiet path signo h,
        deliver_signal-Quiet path signo h,
      )

  -- The hook of a service with `--signal` neither goes on with the start nor returns a value.
  pub pre_config_hook-Quiet :
      (fuel : ℕ) (arg : Text) (pid_file : Option Text) (h : Trace)
      → Quiet h (pre_config_hook env fuel (some arg) pid_file h)
        × Returns (λ r t. r ≡ none) (pre_config_hook env fuel (some arg) pid_file h)
  unfolding pre_config_hook
  pre_config_hook-Quiet fuel arg none h = (refl, tt)
  pre_config_hook-Quiet fuel arg (some path) h = ground (arith, send_signal-Quiet fuel path arg h)
