-- ===== src/SendSignal/Leaving.antt =====
-- service/service.cpp: a service that is called with `--signal` leaves.
use libservice.Prelude.{
  ℕ, ◌+◌, ◌*◌, ◌≤◌, ◌<◌, ℤ, pos, negsuc, Bool-cases, inl, inr, Text, true, false, Option, none,
  some, ◌≡◌, refl, arith, ◌==◌,
}
use libservice.Os.{Env, immediate_exit, Trace, Run, done, threw, quit, undefined, ◌>>=◌, pure}
use libservice.PidFile.Signalling.{sleeps_in, signal-Plain}
use libservice.SendSignal.{
  stop, status, parse_sig_def, wait_for_stop, process_status, deliver_signal, send_stop,
  send_signal, pre_config_hook,
}
use libservice.SendSignal.Codes.{Waited, wait_for_stop-Waited}

module _ (env : Env) where
  -- What the hook makes of a code.
  abbrev left : Run (Option ℤ) → Run (Option (Unit {0}))
  left (done (some c) t) = threw (immediate_exit c) t
  left (done none t) = done none t
  left (threw e t) = threw e t
  left (quit c t) = quit c t
  left (undefined t) = undefined t

  abbrev IsSome : Run (Option ℤ) → Type 0
  IsSome (done (some c) t) = Unit
  IsSome _ = ⊥

  Waited-IsSome :
      (path : Text) (signo deadline : ℕ) (h : Trace) (r : Run (Option ℤ))
      → Waited env path signo deadline h r
      → IsSome r
  Waited-IsSome path signo deadline h (done (some c) t) w = tt
  Waited-IsSome path signo deadline h (done none t) w = w
  Waited-IsSome path signo deadline h _ w = absurd w

  deliver-IsSome :
      (path : Text) (signo : ℕ) (h : Trace)
      → IsSome ((do c ← deliver_signal env path signo; pure (some c)) h)
  unfolding deliver_signal
  deliver-IsSome path signo h = ground (arith, signal-Plain env path signo false h)

  status-IsSome :
      (path : Text) (signo : ℕ) (h : Trace)
      → IsSome ((do c ← process_status env path signo; pure (some c)) h)
  unfolding process_status
  status-IsSome path signo h = ground (arith, signal-Plain env path signo true h)

  send_stop-IsSome :
      (path : Text) (signo n fuel : ℕ) (timeout : ℤ) (h : Trace)
      → ((seconds : ℕ) (t : Trace)
          → timeout ≡ pos seconds
          → n + sleeps_in h ≤ sleeps_in t
          → env.steady h + seconds * 1000000000 ≤ env.steady t)
      → n < fuel
      → IsSome (send_stop env fuel path signo timeout h)
  unfolding send_stop
  send_stop-IsSome path signo n fuel (pos seconds) h passes enough =
      Waited-IsSome path signo _ h (wait_for_stop env fuel path signo seconds h)
        (wait_for_stop-Waited env path signo seconds n fuel h (λ t. passes seconds t refl) enough)
  send_stop-IsSome path signo n fuel (negsuc m) h passes enough = deliver-IsSome path signo h

  abbrev SendPasses : Text → ℕ → Trace → Type 0
  SendPasses arg n h =
      (seconds : ℕ) (t : Trace)
      → (parse_sig_def env arg).timeout ≡ pos seconds
      → n + sleeps_in h ≤ sleeps_in t
      → env.steady h + seconds * 1000000000 ≤ env.steady t

  send_signal-IsSome :
      (path arg : Text) (n fuel : ℕ) (h : Trace)
      → SendPasses arg n h
      → n < fuel
      → IsSome (send_signal env fuel path arg h)
  unfolding send_signal
  send_signal-IsSome path arg n fuel h passes enough =
      elim (Bool-cases ((parse_sig_def env arg).signo == stop)) [
        | inl e ↦ rw e (send_stop-IsSome path _ n fuel _ h passes enough)
        | inr e ↦ rw e (elim (Bool-cases ((parse_sig_def env arg).signo == status)) [
          | inl z ↦ rw z (status-IsSome path _ h)
          | inr z ↦ rw z (deliver-IsSome path _ h)
        ])
      ]

  -- The run leaves by `immediate_exit`.
  abbrev pub Leaves : Run (Option (Unit {0})) → Type 0
  Leaves (threw (immediate_exit c) t) = Unit
  Leaves _ = ⊥

  exits : (r : Run (Option ℤ)) → IsSome r → Leaves (left r)
  exits (done (some c) t) p = tt
  exits (done none t) p = p
  exits _ p = absurd p

  -- With `--signal` and a pid file the service never starts: given more fuel than it takes sleeps to
  -- pass the deadline of a stop with a timeout, the hook leaves by `immediate_exit`.
  pub pre_config_hook-Leaves :
      (path arg : Text) (n fuel : ℕ) (h : Trace)
      → SendPasses arg n h
      → n < fuel
      → Leaves (pre_config_hook env fuel (some arg) (some path) h)
  unfolding pre_config_hook
  pre_config_hook-Leaves path arg n fuel h passes enough =
      exits (send_signal env fuel path arg h) (send_signal-IsSome path arg n fuel h passes enough)
