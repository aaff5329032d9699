-- ===== src/PidFile/Delivery.antt =====
-- service/pidfile.cpp, `signal` from one process and `allocate` in another: a signal reaches the instance
-- that has the pid file.
use libservice.Prelude.{
  ℕ, ℤ, pos, negsuc, Text, Bool, if◌then◌else◌, false, some, ◌∷◌, ◌≡◌, ◌⊎◌, refl, arith, ◌==◌, ◌∙◌,
  text_eq_self,
}
use libservice.Os.{
  Env, Call, M, pure, throw, system_error, read_only, open_file, fdopen, lock_fd, kill, close_fd,
  Trace, Answer, ok, fail, Returns, Run, done, threw, quit, undefined, trace_of,
}
use libservice.PidFile.{enoent, esrch, allocate, signal_opened, signal}
use libservice.PidFile.World.{History, Kernel, env_of, succeeded, file_of, Posix, Owns}
use libservice.PidFile.Instances.{Rely, Excluded, scanned, refused, allocate-Owns}

-- The last calls sent the signal to the process and closed the pid file again; the value is the process
-- id, or 0 where the system said that there is no such process.
abbrev pub Sent : Env → ℕ → ℕ → ℤ → Trace → Type 0
Sent base r signo pid (close_fd fd ∷ kill p s ∷ before) =
    (p ≡ pos r)
    × (s ≡ signo)
    × ((pid ≡ pos r) ⊎ ((pid ≡ pos 0) × (base.kills before (pos r) signo ≡ fail esrch)))
Sent base r signo pid _ = ⊥

module _ (base : Env) (k : Kernel) (path : Text) (q r f : ℕ) (at : Trace → History)
    (posix : Posix k path) (rely : Rely base k path q r f at) (other : (r == q) ≡ false)
    (signo : ℕ) where
  abbrev env : Env
  env = env_of base k q at

  opened_for_reading :
      (fd : ℕ) (t : Trace)
      → Excluded base k path q r f at t
      → k.opens (at t) q read_only path ≡ ok fd
      → file_of k path q fd (at (open_file read_only path ∷ t)) ≡ some f
  opened_for_reading fd t owns e =
      rely.descriptors (open_file read_only path) t fd
      ∙ ground (arith, e, owns.0, text_eq_self path)

  signal_opened-Sent :
      (h : Trace) (fd : ℕ)
      → Excluded base k path q r f at h
      → k.opens (at h) q read_only path ≡ ok fd
      → Returns (Sent base r signo) (signal_opened env fd signo (open_file read_only path ∷ h))
  unfolding signal_opened
  signal_opened-Sent h fd owns e =
      let h1 : Trace = open_file read_only path ∷ h in
      let h2 : Trace = fdopen fd ∷ h1 in
      let h3 : Trace = lock_fd fd ∷ h2 in
      let o1 : Excluded base k path q r f at h1 = rely.keeps (open_file read_only path) h owns in
      let o2 : Excluded base k path q r f at h2 = rely.keeps (fdopen fd) h1 o1 in
      let d1 : file_of k path q fd (at h1) ≡ some f = opened_for_reading fd h owns e in
      let d2 : file_of k path q fd (at h2) ≡ some f = rely.descriptors (fdopen fd) h1 fd ∙ d1 in
      let d3 : file_of k path q fd (at h3) ≡ some f = rely.descriptors (lock_fd fd) h2 fd ∙ d2 in
      let denied : succeeded (k.locks (at h2) q fd) ≡ false =
        refused base k path q r f at posix rely other fd h2 o2 d2 in
      let o3 : Excluded base k path q r f at h3 =
        rely.keeps (lock_fd fd) h2 (ground (arith, o2, denied)) in
      ground (arith, denied, scanned base k path q r f at posix rely other fd h3 o3 d3)

  signal-Sent :
      (report : Bool) (h : Trace)
      → Excluded base k path q r f at h
      → Returns (Sent base r signo) (signal env path signo report h)
  unfolding signal
  signal-Sent report h owns = go (k.opens (at h) q read_only path) refl
    where
      go :
          (a : Answer ℕ)
          → k.opens (at h) q read_only path ≡ a
          → Returns (Sent base r signo) (
              (elim a as (λ x. M ℤ) [
                | ok fd ↦ signal_opened env fd signo
                | fail e ↦
                    if e == enoent
                    then pure (if report then negsuc 0 else pos 0)
                    else throw (system_error e)
              ])
                (open_file read_only path ∷ h))
      go (ok fd) e = signal_opened-Sent h fd owns e
      go (fail n) e = ground (arith, e, posix.present (at h) q f owns.0)

module _ (base base' : Env) (k : Kernel) (path : Text) (p q : ℕ) (at at' : Trace → History)
    (alone : (c : Call) (t : Trace) → at (c ∷ t) ≡ (p, c) ∷ at t) where
  -- The second process signals the first.
  abbrev pub Reached : ℕ → Bool → Trace → Type 0
  Reached signo report g =
      Returns (Sent base' p signo) (signal (env_of base' k q at') path signo report g)

  -- On a file system that behaves as documented, where an instance has allocated the pid file alone,
  -- `signal` in another process, when it returns, has sent the signal to that instance: it returns the
  -- instance's process id, or 0 where the system said that there is no such process, whatever is done
  -- between its calls by processes that leave the file and its descriptors alone.
  pub signal_reaches :
      (signo : ℕ) (report : Bool) (h g : Trace)
      → Posix k path
      → (p == q) ≡ false
      → ((f : ℕ) → Rely base' k path q p f at')
      → at' g ≡ at (trace_of (allocate (env_of base k p at) path h))
      → Returns (λ _ t. Reached signo report g) (allocate (env_of base k p at) path h)
  signal_reaches signo report h g posix other rely start =
      go (allocate (env_of base k p at) path h) (allocate-Owns base k path p at alone h) start
    where
      go :
          (r : Run (Unit {0}))
          → Returns (λ _ t. (f : ℕ) × Owns k path p f (at t)) r
          → at' g ≡ at (trace_of r)
          → Returns (λ _ t. Reached signo report g) r
      go (done u t) (f, owns) e =
          signal-Sent base' k path q p f at' posix (rely f) other signo report g (rw e owns)
      go (threw x t) owns e = tt
      go (quit c t) owns e = tt
      go (undefined t) owns e = tt
