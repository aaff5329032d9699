-- ===== src/PidFile/Signalling.antt =====
-- service/pidfile.cpp, `signal`: what is signalled, and what each answer means.
use libservice.Prelude.{
  ℕ, suc, ℤ, pos, negsuc, Text, Bool, some, List, [], ◌∷◌, ◌≡◌, ◌⊎◌, arith, if◌then◌else◌,
}
use libservice.Os.{
  Env, read_only, open_file, fdopen, lock_fd, scan_pid, kill, usleep, system_error, close_fd, Trace,
  ok, fail, trace_of, Run, Returns, done, threw,
}
use libservice.PidFile.{ebadf, enoent, signal}

-- Which signals a trace sends to whom, newest first.
abbrev pub killed_in : Trace → List (ℤ × ℕ)
killed_in [] = []
killed_in (kill pid signo ∷ t) = (pid, signo) ∷ killed_in t
killed_in (_ ∷ t) = killed_in t

module _ (env : Env) (path : Text) (signo : ℕ) (report : Bool) (h : Trace) where
  abbrev after_open : Trace
  after_open = open_file read_only path ∷ h

  -- A missing pid file.
  pub signal_missing :
      env.opens h read_only path ≡ fail enoent
      → signal env path signo report h ≡ done (if report then negsuc 0 else pos 0) after_open
  unfolding signal
  signal_missing e = ground arith

  -- A lock that we get means that nothing runs: 0, and no signal is sent.
  pub signal_unlocked :
      (fd : ℕ)
      → env.opens h read_only path ≡ ok fd
      → env.fdopens after_open fd ≡ ok tt
      → env.locks (fdopen fd ∷ after_open) fd ≡ ok tt
      → signal env path signo report h
        ≡ done (pos 0) (close_fd fd ∷ lock_fd fd ∷ fdopen fd ∷ after_open)
  unfolding signal
  signal_unlocked fd a b c = ground arith

  -- The trace ends with one signal to `pid`, sent after the file was opened for reading, its process
  -- id read, and its lock asked for.
  abbrev pub Delivered : ℤ → Trace → Type 0
  Delivered pid
        (close_fd a ∷ kill p s ∷ scan_pid b ∷ lock_fd c ∷ fdopen d ∷ open_file read_only f ∷ t) =
      (p ≡ pid)
      × (s ≡ signo)
      × (f ≡ path)
      × (env.opens t read_only path ≡ ok b)
      × (env.scans (lock_fd c ∷ fdopen d ∷ open_file read_only f ∷ t) b ≡ some pid)
      × (t ≡ h)
  Delivered pid t = ⊥

  -- When `signal` returns, it returns 0, or -1, or the process id that the file names, to which it
  -- has sent the signal.
  signal-Delivered :
      Returns
        (λ pid t. (pid ≡ pos 0) ⊎ (pid ≡ negsuc 0) ⊎ Delivered pid t)
        (signal env path signo report h)
  unfolding signal
  signal-Delivered = ground arith

module _ (env : Env) (path : Text) where
  -- `fcntl(2)`: a write lock on a descriptor that is open for reading only fails with EBADF.
  abbrev pub ReadOnlyUnlockable : Type 0
  ReadOnlyUnlockable =
      (t s : Trace) (fd : ℕ) → env.opens s read_only path ≡ ok fd → env.locks t fd ≡ fail ebadf

  -- `signal` opens the file for reading only, so where `fcntl` refuses a write lock on such a
  -- descriptor, the process that a readable pid file names gets the signal in every case, also when
  -- nobody holds the lock of the file, and no other process gets one.
  pub signal_stale :
      (signo : ℕ) (report : Bool) (h : Trace) (fd : ℕ) (pid : ℤ)
      → ReadOnlyUnlockable
      → env.opens h read_only path ≡ ok fd
      → env.fdopens (open_file read_only path ∷ h) fd ≡ ok tt
      → env.scans (lock_fd fd ∷ fdopen fd ∷ open_file read_only path ∷ h) fd ≡ some pid
      → killed_in (trace_of (signal env path signo report h)) ≡ (pid, signo) ∷ killed_in h
  unfolding signal
  signal_stale signo report h fd pid refused opened streamed named =
      ground (arith, refused (fdopen fd ∷ open_file read_only path ∷ h) h fd opened)

-- How often a trace slept.
abbrev pub sleeps_in : Trace → ℕ
sleeps_in [] = 0
sleeps_in (usleep n ∷ t) = suc (sleeps_in t)
sleeps_in (_ ∷ t) = sleeps_in t

-- A run that returns or throws a system error, without sleeping.
abbrev pub Plain {ℓ} : {A : Type ℓ} → Trace → Run A → Type 0
Plain h (done a t) = sleeps_in t ≡ sleeps_in h
Plain h (threw (system_error n) t) = sleeps_in t ≡ sleeps_in h
Plain h _ = ⊥

pub signal-Plain :
    (env : Env) (path : Text) (signo : ℕ) (report : Bool) (h : Trace)
    → Plain h (signal env path signo report h)
unfolding signal
signal-Plain env path signo report h = ground arith
