-- ===== src/SendSignal/Codes.antt =====
-- service/service.cpp: the exit codes of `--signal`, and that a waiting stop ends.
use libservice.Prelude.{
  ℕ, zero, suc, ◌+◌, ◌*◌, ◌≤◌, ◌<◌, ℤ, pos, Bool-cases, inl, inr, is_zero, is_negative, is_positive,
  Text, Bool, true, false, Option, some, ◌∷◌, ◌≡◌, ◌⊎◌, refl, arith, if◌then◌else◌, leb,
}
use libservice.Os.{
  Env, Error, runtime_error, already_running, immediate_exit, po_error, system_error,
  read_steady_clock, usleep, read_only, open_file, close_fd, kill, lock_fd, ok, fail, Trace, Run,
  done, threw, quit, undefined, Fails, bind_rule,
}
use libservice.PidFile.{enoent, esrch, signal}
use libservice.PidFile.Signalling.{sleeps_in, Plain, signal-Plain}
use libservice.SendSignal.{stop_rounds, wait_for_stop}

module _ (env : Env) (path : Text) (signo : ℕ) where
  -- One of the calls of `signal` returned at `t`, and said that nothing runs.
  abbrev pub SaysGone : Trace → Type 0
  SaysGone t =
      (s : Trace) × (pid : ℤ) × (signal env path signo false s ≡ done pid t) × (is_zero pid ≡ true)

  -- One of them returned at `t`, and named a process.
  abbrev pub SaysAlive : Trace → Type 0
  SaysAlive t =
      (s : Trace) × (pid : ℤ) × (signal env path signo false s ≡ done pid t) × (is_zero pid ≡ false)

  -- One of them threw a system error at `t`.
  abbrev pub SaysError : Trace → Type 0
  SaysError t = (s : Trace) × (e : ℕ) × (signal env path signo false s ≡ threw (system_error e) t)

  -- How `waitForStop` may end, `h` being the trace before its first round: 1 before any sleep, 0
  -- after one, 2 past the deadline.
  abbrev Stopped : ℕ → Trace → Bool → Run (Option ℤ) → Type 0
  Stopped deadline h first (done (some (pos zero)) t) =
      SaysGone t × (first ≡ true → sleeps_in h < sleeps_in t) × (sleeps_in h ≤ sleeps_in t)
  Stopped deadline h first (done (some (pos (suc zero))) t) =
      SaysGone t × (first ≡ true) × (sleeps_in t ≡ sleeps_in h)
  Stopped deadline h first (done (some (pos (suc (suc zero)))) (read_steady_clock ∷ t)) =
      SaysAlive t × (deadline ≤ env.steady t)
  Stopped deadline h first (threw (system_error e) t) = SaysError t
  Stopped deadline h first _ = ⊥

  later :
      (deadline : ℕ) (h t : Trace) (first : Bool) (r : Run (Option ℤ))
      → sleeps_in h < sleeps_in t
      → Stopped deadline t false r
      → Stopped deadline h first r
  later deadline h t first (done (some (pos zero)) s) more p =
      (p.0, (λ f. omega (arith, p.2)), omega (arith, p.2))
  later deadline h t first (done (some (pos (suc zero))) s) more p = cc (p.1)
  later deadline h t first (done (some (pos (suc (suc zero)))) (read_steady_clock ∷ s)) more p = p
  later deadline h t first (threw (system_error e) s) more p = p
  later deadline h t first _ more p = absurd p

  abbrev recover : Run (Option ℤ) → Run (Option ℤ)
  recover (done a t) = done a t
  recover (threw (immediate_exit c) t) = threw (immediate_exit c) t
  recover (threw e t) = done (some (pos 3)) t
  recover (quit c t) = quit c t
  recover (undefined t) = undefined t

  stop_rounds-Stopped :
      (deadline n fuel : ℕ) (first : Bool) (h : Trace)
      → ((t : Trace) → n ≤ sleeps_in t → deadline ≤ env.steady t)
      → sleeps_in h ≤ n
      → n < fuel + sleeps_in h
      → Stopped deadline h first (stop_rounds env fuel path signo deadline first h)
  unfolding stop_rounds
  stop_rounds-Stopped deadline n zero first h passes few enough = absurd (omega arith)
  stop_rounds-Stopped deadline n (suc fuel) first h passes few enough =
      bind_rule (Stopped deadline h first) (signal env path signo false) _ h
        (λ pid t e.
          let kept : sleeps_in t ≡ sleeps_in h =
            ground (arith, signal-Plain env path signo false h) in
          elim (Bool-cases (is_zero pid)) [
            | inl gone ↦ rw gone (stopped_now first t (h, pid, e, gone) kept)
            | inr alive ↦ rw alive (elim (Bool-cases (leb deadline (env.steady t))) [
              | inl past ↦ rw past ((h, pid, e, alive), ground arith)
              | inr early ↦ rw early (
                  let slept : Trace = usleep 100000 ∷ read_steady_clock ∷ t in
                  let room : suc (sleeps_in t) ≤ n = ground (arith, passes t) in
                  later deadline h slept first
                    (stop_rounds env fuel path signo deadline false slept) (omega arith)
                    (stop_rounds-Stopped deadline n fuel false slept passes (omega arith)
                      (omega arith)))
            ])
          ])
        (λ e t thrown.
          thrown_plain e t thrown (ground (arith, signal-Plain env path signo false h)))
        (λ c t e. ground (arith, signal-Plain env path signo false h))
        (λ t e. ground (arith, signal-Plain env path signo false h))
    where
      stopped_now :
          (b : Bool) (t : Trace)
          → SaysGone t
          → sleeps_in t ≡ sleeps_in h
          → Stopped deadline h b (done (some (if b then pos 1 else pos 0)) t)
      stopped_now true t gone k = (gone, refl, k)
      stopped_now false t gone k = (gone, (λ f. cc), omega arith)

      thrown_plain :
          (e : Error) (t : Trace)
          → signal env path signo false h ≡ threw e t
          → Plain {A = Option ℤ} h (threw e t)
          → Stopped deadline h first (threw e t)
      thrown_plain (system_error n) t thrown p = (h, n, thrown)
      thrown_plain runtime_error t thrown p = p
      thrown_plain already_running t thrown p = p
      thrown_plain (immediate_exit n) t thrown p = p
      thrown_plain po_error t thrown p = elim p [ ]

  -- What each code of `waitForStop` means: 0 and 1, the last `signal` said that nothing runs, after
  -- at least one sleep or before any; 2, it named a process, and the deadline has passed; 3, it threw.
  abbrev pub Waited : ℕ → Trace → Run (Option ℤ) → Type 0
  Waited deadline h (done (some (pos zero)) t) = SaysGone t × (sleeps_in h < sleeps_in t)
  Waited deadline h (done (some (pos (suc zero))) t) = SaysGone t × (sleeps_in t ≡ sleeps_in h)
  Waited deadline h (done (some (pos (suc (suc zero)))) (read_steady_clock ∷ t)) =
      SaysAlive t × (deadline ≤ env.steady t)
  Waited deadline h (done (some (pos (suc (suc (suc zero))))) t) = SaysError t
  Waited deadline h _ = ⊥

  caught :
      (deadline : ℕ) (h : Trace) (r : Run (Option ℤ))
      → Stopped deadline (read_steady_clock ∷ h) true r
      → Waited deadline h (recover r)
  caught deadline h (done (some (pos zero)) t) p = (p.0, ground (arith, p.1 refl))
  caught deadline h (done (some (pos (suc zero))) t) p = (p.0, p.2)
  caught deadline h (done (some (pos (suc (suc zero)))) (read_steady_clock ∷ t)) p = p
  caught deadline h (threw (system_error e) t) p = p
  caught deadline h _ p = absurd p

  -- With more fuel than it takes sleeps to pass the deadline, `waitForStop` returns a code, and the
  -- code tells the truth: 0 and 1, the last call of `signal` said that nothing runs, after at least
  -- one sleep or before any; 2, the last call named a process, and the deadline has passed; 3, the
  -- last call threw a system error.
  pub wait_for_stop-Waited :
      (timeout n fuel : ℕ) (h : Trace)
      → ((t : Trace)
          → n + sleeps_in h ≤ sleeps_in t
          → env.steady h + timeout * 1000000000 ≤ env.steady t)
      → n < fuel
      → Waited (env.steady h + timeout * 1000000000) h (wait_for_stop env fuel path signo timeout h)
  unfolding wait_for_stop
  wait_for_stop-Waited timeout n fuel h passes enough =
      let deadline : ℕ = env.steady h + timeout * 1000000000 in
      let started : Trace = read_steady_clock ∷ h in
      caught deadline h (stop_rounds env fuel path signo deadline true started) (
        stop_rounds-Stopped deadline (n + sleeps_in h) fuel true started passes (omega arith)
          (omega arith))

module _ (env : Env) where
  -- What each code of `processStatus` rests on, `h` being the trace before it.
  abbrev pub StatusMeans : Text → Trace → Run ℤ → Type 0
  StatusMeans path h (done (pos zero) (close_fd a ∷ kill pid signo ∷ t)) =
      (is_positive pid ≡ true) × (signo ≡ 0) × (env.kills t pid 0 ≡ ok tt)
  StatusMeans path h (done (pos (suc zero)) (close_fd a ∷ lock_fd b ∷ t)) = env.locks t b ≡ ok tt
  StatusMeans path h (done (pos (suc zero)) (close_fd a ∷ kill pid signo ∷ t)) =
      (pid ≡ pos 0) ⊎ (env.kills t pid 0 ≡ fail esrch)
  StatusMeans path h (done (pos (suc (suc (suc zero)))) (open_file mode p ∷ t)) =
      (t ≡ h) × (env.opens h read_only path ≡ fail enoent)
  StatusMeans path h (done (pos (suc (suc (suc zero)))) (close_fd a ∷ kill pid signo ∷ t)) =
      is_negative pid ≡ true
  StatusMeans path h (done (pos (suc (suc (suc (suc zero))))) t) =
      Fails (λ e s. s ≡ t) (signal env path 0 true h)
  StatusMeans path h _ = ⊥
