-- ===== src/PidFile.antt =====
-- service/pidfile.cpp: the pid file of a daemon, its lock, and signals to the process it names.
pub mod Exclusion
pub mod Held
pub mod Waiting
pub mod Signalling
pub mod Descriptors
pub mod World
pub mod Instances
pub mod Delivery
pub mod Takeover
use libservice.Prelude.{
  ℕ, zero, suc, ◌+◌, ℤ, pos, negsuc, eq_ℤ, is_negative, Text, Bool, true, false, Option, none, some,
  ◌==◌, leb, if◌then◌else◌,
}
use libservice.Os.{
  Env, Error, system_error, already_running, OpenMode, create_excl, read_write, read_only,
  create_directories, open_file, fdopen, scan_pid, lock_fd, unlink, close_fd, write_pid,
  set_cloexec, kill, read_clock, usleep, Answer, ok, fail, M, ◌>>=◌, ◌>>◌, pure, throw, catch, ask,
  tell, look, checked,
}

-- `errno` values of Linux.
abbrev pub enoent : ℕ
enoent = 2

abbrev pub esrch : ℕ
esrch = 3

abbrev pub ebadf : ℕ
ebadf = 9

abbrev pub eagain : ℕ
eagain = 11

abbrev pub eexist : ℕ
eexist = 17

-- `File`: a descriptor, -1 when there is none, and whether a stream was opened on it.
pub record File : Type 0 where
  pub fd : ℤ
  pub has_fp : Bool

abbrev pub opened : ℕ → File
opened fd = record { fd = pos fd; has_fp = false }

abbrev pub streamed : ℕ → File
streamed fd = record { fd = pos fd; has_fp = true }

close_fp : Bool → ℤ → M (Unit {0})
close_fp true (pos fd) = tell (close_fd fd)
close_fp true (negsuc n) = pure tt
close_fp false (pos zero) = pure tt
close_fp false (pos (suc fd)) = tell (close_fd (suc fd))
close_fp false (negsuc n) = pure tt

-- `File::close`: a descriptor without a stream is closed unless it is 0.
close : File → M (Unit {0})
unfolding close_fp
close file = close_fp file.has_fp file.fd

-- `~File`.
destroy : File → M (Unit {0})
unfolding close
destroy file = if is_negative file.fd then pure tt else close file

-- A step that, when it throws, leaves the scope of the file.
scoped {ℓ} : {A : Type ℓ} → File → M A → M A
unfolding destroy
scoped file m = catch m (λ e. do destroy file; throw e)

module _ (env : Env) where
  -- `lockFd`: a write lock on the whole file, without waiting.
  lock_descriptor : ℕ → M (Answer (Unit {0}))
  lock_descriptor fd = ask (lock_fd fd) (λ h. env.locks h fd)

  stream : ℕ → M (Unit {0})
  stream fd = checked (fdopen fd) (λ h. env.fdopens h fd)

  open_checked : OpenMode → Text → M ℕ
  open_checked mode path = checked (open_file mode path) (λ h. env.opens h mode path)

  abbrev is_ok {ℓ} : {A : Type ℓ} → Answer A → Bool
  is_ok (ok a) = true
  is_ok (fail e) = false

  -- No process id in the file, our own, or a lock that we get: the file is stale.
  recorded_is_stale : ℕ → Option ℤ → M Bool
  unfolding lock_descriptor
  recorded_is_stale fd none = pure true
  recorded_is_stale fd (some pid) = do
    self ← look env.getpid
    if eq_ℤ pid self then pure true else (do l ← lock_descriptor fd; pure (is_ok l))

  is_stale : ℕ → M Bool
  unfolding recorded_is_stale
  is_stale fd = do r ← ask (scan_pid fd) (λ h. env.scans h fd); recorded_is_stale fd r

  remove_stale : Text → ℕ → Bool → M (Unit {0})
  unfolding scoped
  remove_stale path fd true = scoped (streamed fd) (checked (unlink path) (λ h. env.unlinks h path))
  remove_stale path fd false = scoped (streamed fd) (throw already_running)

  -- The pid file exists: look into it, and take its place if it is stale.
  look_into : Text → ℕ → M ℕ
  unfolding open_checked stream scoped is_stale remove_stale close
  look_into path fd = do
    scoped (opened fd) (stream fd)
    stale ← is_stale fd
    remove_stale path fd stale
    close (streamed fd)
    tell (unlink path)
    open_checked create_excl path

  reclaim : Text → M ℕ
  unfolding open_checked look_into
  reclaim path = do fd ← open_checked read_write path; look_into path fd

  retry_existing : Text → ℕ → M ℕ
  unfolding reclaim
  retry_existing path e = if e == eexist then reclaim path else throw (system_error e)

  open_fresh : Text → M ℕ
  unfolding retry_existing
  open_fresh path = do
    r ← ask (open_file create_excl path) (λ h. env.opens h create_excl path)
    elim r [ ok fd ↦ pure fd | fail e ↦ retry_existing path e ]

  lock_checked : ℕ → M (Unit {0})
  lock_checked fd = checked (lock_fd fd) (λ h. env.locks h fd)

  write_own_pid : ℕ → M (Unit {0})
  write_own_pid fd = do self ← look env.getpid; tell (write_pid fd self); tell (set_cloexec fd)

  -- The descriptor is released, never closed, so that the lock stays.
  unfoldable pub allocate : Text → M (Unit {0})
  unfolding open_fresh scoped lock_checked stream write_own_pid
  allocate path = do
    checked (create_directories (env.parent_path path))
        (λ h. env.makes_directories h (env.parent_path path))
    fd ← open_fresh path
    scoped (opened fd) (lock_checked fd)
    scoped (opened fd) (stream fd)
    write_own_pid fd

  -- What `signal` does with the answer of `kill`: -1 with ESRCH is "not running".
  deliver : ℤ → ℕ → ℕ → M ℤ
  unfolding scoped destroy
  deliver pid fd signo = do
    r ← ask (kill pid signo) (λ h. env.kills h pid signo)
    elim r [
      | ok _ ↦ (do destroy (streamed fd); pure pid)
      | fail e ↦
          if e == esrch
          then (do destroy (streamed fd); pure (pos 0))
          else scoped (streamed fd) (throw (system_error e))
    ]

  -- The parse error is thrown with the `errno` that happens to be set.
  parse_and_deliver : ℕ → ℕ → M ℤ
  unfolding deliver scoped
  parse_and_deliver fd signo = do
    r ← ask (scan_pid fd) (λ h. env.scans h fd)
    elim r [
      | none ↦ (do e ← look env.errno; scoped (streamed fd) (throw (system_error e)))
      | some pid ↦ deliver pid fd signo
    ]

  signal_opened : ℕ → ℕ → M ℤ
  unfolding lock_descriptor parse_and_deliver scoped stream destroy
  signal_opened fd signo = do
    scoped (opened fd) (stream fd)
    l ← lock_descriptor fd
    if is_ok l then (do destroy (streamed fd); pure (pos 0)) else parse_and_deliver fd signo

  -- `pidfile::signal`: the pid signalled, 0 when nothing runs, -1 for a missing file on request.
  unfoldable pub signal : Text → ℕ → Bool → M ℤ
  unfolding signal_opened
  signal path signo report_missing_pid = do
    r ← ask (open_file read_only path) (λ h. env.opens h read_only path)
    elim r [
      | ok fd ↦ signal_opened fd signo
      | fail e ↦
          if e == enoent
          then pure (if report_missing_pid then negsuc 0 else pos 0)
          else throw (system_error e)
    ]

  -- One round of `ScopedPidFile`: rethrow after the end time, or sleep and go on.
  retry_later : ℕ → ℕ → M Bool → Error → M Bool
  retry_later end period again already_running = do
    now ← ask read_clock env.clock
    if leb end now then throw already_running else (do tell (usleep period); again)
  retry_later end period again e = throw e

  wait_allocate : ℕ → Text → ℕ → ℕ → M Bool
  unfolding retry_later
  wait_allocate zero path end period = pure false
  wait_allocate (suc fuel) path end period =
      let again = wait_allocate fuel path end period in
      catch (do allocate path; pure true) (retry_later end period again)

  -- `ScopedPidFile` with a wait time. `false` when the fuel runs out.
  pub scoped_pid_file : ℕ → Text → ℕ → ℕ → M Bool
  unfolding wait_allocate
  scoped_pid_file fuel path wait_time period = do
    start ← ask read_clock env.clock
    wait_allocate fuel path (start + wait_time) period
