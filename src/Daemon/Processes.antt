-- ===== src/Daemon/Processes.antt =====
-- service/service.cpp: which process goes on after the daemonization, what the waiting ones see, and
-- how often the notifier is closed.
use libservice.Prelude.{
  ℕ, zero, suc, ◌+◌, ◌<◌, pos, Bool, true, false, Option, some, [], ◌∷◌, ◌≡◌, arith, ◌==◌,
  is_negative, if◌then◌else◌,
}
use libservice.Os.{
  Env, in_child, in_parent, fork_failed, fork, setsid, close_fd, read_pipe, ReadResult, bytes_read,
  end_of_file, interrupted, read_error, Trace, Run, done, undefined, ◌>>=◌,
}
use libservice.Daemon.{
  Globals, wait_for_child, service_atfork, Outcome, daemon, returns, out_of_fuel,
}

-- The trace after `n` more reads of the pipe.
abbrev pub after_reads : ℕ → ℕ → Trace → Trace
after_reads zero fd h = h
after_reads (suc n) fd h = after_reads n fd (read_pipe fd ∷ h)

-- How the wait ends at the first read that brings no data.
abbrev pub WaitEnds : ReadResult → Trace → Run (Option Bool) → Type 0
WaitEnds bytes_read t r = Unit
WaitEnds end_of_file t r = r ≡ done (some true) t
WaitEnds interrupted t r = r ≡ undefined t
WaitEnds (read_error e) t r = r ≡ done (some false) t

abbrev pub forks_in : Trace → ℕ
forks_in [] = 0
forks_in (fork ∷ t) = suc (forks_in t)
forks_in (_ ∷ t) = forks_in t

abbrev pub sessions_in : Trace → ℕ
sessions_in [] = 0
sessions_in (setsid ∷ t) = suc (sessions_in t)
sessions_in (_ ∷ t) = sessions_in t

abbrev pub closes_of : ℕ → Trace → ℕ
closes_of fd [] = 0
closes_of fd (close_fd n ∷ t) = let k = closes_of fd t in if n == fd then suc k else k
closes_of fd (_ ∷ t) = closes_of fd t

-- How often a trace read a pipe.
abbrev pub reads_in : Trace → ℕ
reads_in [] = 0
reads_in (read_pipe fd ∷ t) = suc (reads_in t)
reads_in (_ ∷ t) = reads_in t

module _ (env : Env) where
  -- How many forks of a trace returned in the child, in the parent, and failed.
  abbrev pub children_in : Trace → ℕ
  children_in [] = 0
  children_in (fork ∷ t) = elim (env.forks t) [
    | in_child ↦ suc (children_in t)
    | in_parent pid ↦ children_in t
    | fork_failed e ↦ children_in t
  ]
  children_in (_ ∷ t) = children_in t

  abbrev pub parents_in : Trace → ℕ
  parents_in [] = 0
  parents_in (fork ∷ t) = elim (env.forks t) [
    | in_child ↦ parents_in t
    | in_parent pid ↦ suc (parents_in t)
    | fork_failed e ↦ parents_in t
  ]
  parents_in (_ ∷ t) = parents_in t

  -- What has happened to a process that goes on: the daemon is the child of two forks and has a session
  -- of its own and a notifier; the starting process goes on only when its only fork failed, with code
  -- 1. Only a parent, that has read data once for each unit of fuel, is still waiting.
  abbrev pub GoesOn : ℕ → Trace → Outcome → Trace → Type 0
  GoesOn fuel h (daemon g) t =
      (forks_in t ≡ 2 + forks_in h)
      × (children_in t ≡ 2 + children_in h)
      × (sessions_in t ≡ 1 + sessions_in h)
      × (is_negative g.notifier_fd ≡ false)
      × (g.daemonize_finish_run ≡ false)
  GoesOn fuel h (returns code) t =
      (code ≡ pos 1)
      × (forks_in t ≡ 1 + forks_in h)
      × (children_in t ≡ children_in h)
      × (parents_in t ≡ parents_in h)
      × (sessions_in t ≡ sessions_in h)
  GoesOn fuel h out_of_fuel t = (parents_in t ≡ 1 + parents_in h) × (reads_in t ≡ fuel + reads_in h)

  -- With more fuel than reads that bring data, a process that waits for its child reads over the data;
  -- then the end of the pipe is success, an error is a failure, and an interrupted read is undefined
  -- behaviour.
  wait_for_child_ends :
      (n fuel fd : ℕ) (h : Trace)
      → n < fuel
      → ((k : ℕ) → k < n → env.reads (after_reads k fd h) fd ≡ bytes_read)
      → WaitEnds
          (env.reads (after_reads n fd h) fd)
          (after_reads (suc n) fd h)
          (wait_for_child env fuel fd h)
  unfolding wait_for_child
  wait_for_child_ends n zero fd h enough before = absurd (omega arith)
  wait_for_child_ends zero (suc fuel) fd h enough before = ground arith
  wait_for_child_ends (suc n) (suc fuel) fd h enough before =
      rw (before 0 (omega arith), wait_for_child)
        (wait_for_child_ends n fuel fd (read_pipe fd ∷ h) (omega arith)
          (λ k small. before (suc k) (omega arith)))

  -- However often the service forks again, a process closes its notifier and ties its streams once.
  service_atfork_once :
      (g : Globals) (h : Trace)
      → (service_atfork env g >>= service_atfork env) h ≡ service_atfork env g h
  unfolding service_atfork
  service_atfork_once g h = ground arith
