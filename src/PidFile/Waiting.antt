-- ===== src/PidFile/Waiting.antt =====
-- service/pidfile.cpp, `ScopedPidFile` with a wait time: the loop ends.
use libservice.Prelude.{ℕ, zero, suc, ◌+◌, ◌≤◌, ◌<◌, Text, Bool, true, ◌∷◌, ◌≡◌, arith}
use libservice.Os.{
  Env, Error, already_running, read_clock, usleep, Trace, trace_of, Run, Settles, M, ◌>>◌, pure,
  system_error, runtime_error, immediate_exit, po_error, catch_rule, done, threw, quit, undefined,
}
use libservice.PidFile.{retry_later, allocate, reclaim, open_fresh, wait_allocate, scoped_pid_file}
use libservice.PidFile.Signalling.{sleeps_in}
use libservice.PidFile.Exclusion.{Holds, allocate-Holds}

module _ (env : Env) where
  allocate_sleeps :
      (path : Text) (h : Trace) → sleeps_in (trace_of (allocate env path h)) ≡ sleeps_in h
  unfolding allocate open_fresh reclaim
  allocate_sleeps path h = ground arith

  -- The ways in which `ScopedPidFile` may end: it holds the pid file, or an exception passes.
  abbrev pub Ended : Text → Run Bool → Type 0
  Ended path (done b t) = (b ≡ true) × Holds env path t
  Ended path (threw e t) = Unit
  Ended path (quit c t) = ⊥
  Ended path (undefined t) = ⊥

  allocate_no_quit : (path : Text) (h : Trace) → Settles (allocate env path h)
  unfolding allocate open_fresh reclaim
  allocate_no_quit path h = ground arith

  attempt : Text → M Bool
  attempt path = do allocate env path; pure true

  attempt-Ended :
      (path : Text) (h : Trace)
      → Ended path (attempt path h) × (sleeps_in (trace_of (attempt path h)) ≡ sleeps_in h)
  unfolding attempt
  attempt-Ended path h =
      ground (arith, allocate-Holds env path h, allocate_no_quit path h, allocate_sleeps path h)

  retry_later-Ended :
      (path : Text) (period end n : ℕ) (again : M Bool) (e : Error) (t : Trace)
      → ((s : Trace) → n ≤ sleeps_in s → end ≤ env.clock s)
      → (sleeps_in t < n → Ended path (again (usleep period ∷ read_clock ∷ t)))
      → Ended path (retry_later env end period again e t)
  unfolding retry_later
  retry_later-Ended path period end n again already_running t passes next = ground (arith, passes t)
  retry_later-Ended path period end n again (system_error x) t passes next = tt
  retry_later-Ended path period end n again runtime_error t passes next = tt
  retry_later-Ended path period end n again (immediate_exit x) t passes next = tt
  retry_later-Ended path period end n again po_error t passes next = tt

  wait_allocate-Ended :
      (path : Text) (period end n fuel : ℕ) (h : Trace)
      → ((t : Trace) → n ≤ sleeps_in t → end ≤ env.clock t)
      → sleeps_in h ≤ n
      → n < fuel + sleeps_in h
      → Ended path (wait_allocate env fuel path end period h)
  unfolding wait_allocate attempt
  wait_allocate-Ended path period end n zero h passes few enough = absurd (omega arith)
  wait_allocate-Ended path period end n (suc fuel) h passes few enough =
      catch_rule (Ended path) (attempt path)
        (retry_later env end period (wait_allocate env fuel path end period)) h
        (λ b t e. ground (arith, attempt-Ended path h))
        (λ e t thrown.
          let kept : sleeps_in t ≡ sleeps_in h = ground (arith, attempt-Ended path h) in
          retry_later-Ended path period end n (wait_allocate env fuel path end period) e t passes
            (λ more.
              wait_allocate-Ended path period end n fuel (usleep period ∷ read_clock ∷ t) passes
                (omega arith) (omega arith)))
        (λ c t e. ground (arith, attempt-Ended path h))
        (λ t e. ground (arith, attempt-Ended path h))

  -- When the clock passes the end time after at most `n` sleeps of the loop, more than `n` rounds of
  -- fuel suffice: `ScopedPidFile` with a wait time returns holding the pid file, or throws.
  pub scoped_pid_file-Ended :
      (path : Text) (wait_time period n fuel : ℕ) (h : Trace)
      → ((t : Trace) → n + sleeps_in h ≤ sleeps_in t → env.clock h + wait_time ≤ env.clock t)
      → n < fuel
      → Ended path (scoped_pid_file env fuel path wait_time period h)
  unfolding scoped_pid_file
  scoped_pid_file-Ended path wait_time period n fuel h passes enough =
      wait_allocate-Ended path period (env.clock h + wait_time) (n + sleeps_in h) fuel
        (read_clock ∷ h) passes (omega arith) (omega arith)
