-- ===== src/PidFile/Instances.antt =====
-- service/pidfile.cpp, `allocate`, by several processes on one file system: who has the pid file.
use libservice.Prelude.{
  ℕ, pos, Text, false, some, ◌∷◌, ◌≡◌, refl, arith, ◌==◌, ◌∙◌, text_eq_self, length,
}
use libservice.Os.{
  Env, Fails, create_excl, read_write, open_file, close_fd, lock_fd, write_pid, scan_pid, Call,
  create_directories, fdopen, Trace, set_cloexec, Answer, ok, fail, Returns, Returns-weaken,
  Fails-weaken, Run, done, threw, quit, undefined, trace_of, checked, ◌>>=◌,
}
use libservice.PidFile.{look_into, allocate, reclaim, open_fresh}
use libservice.PidFile.Exclusion.{Holds, allocate-Holds}
use libservice.PidFile.World.{History, Kernel, env_of, succeeded, file_of, Posix, Owns}

module _ (base : Env) (k : Kernel) (path : Text) (q r f : ℕ) (at : Trace → History) where
  abbrev env : Env
  env = env_of base k q at

  -- What other processes may do between two calls of this one: anything that leaves the owner and
  -- this one's descriptors as they are.
  pub record Rely : Type 0 where
    pub keeps :
        (c : Call) (t : Trace) → Owns k path r f ((q, c) ∷ at t) → Owns k path r f (at (c ∷ t))
    pub descriptors :
        (c : Call) (t : Trace) (fd : ℕ)
        → file_of k path q fd (at (c ∷ t)) ≡ file_of k path q fd ((q, c) ∷ at t)

  abbrev pub Excluded : Trace → Type 0
  Excluded t = Owns k path r f (at t)

  module _ (posix : Posix k path) (rely : Rely) (other : (r == q) ≡ false) where
    close-Excluded : (fd : ℕ) (t : Trace) → Excluded t → Excluded (close_fd fd ∷ t)
    close-Excluded fd t owns = rely.keeps (close_fd fd) t (ground (arith, other, owns))

    opened-Excluded :
        (fd : ℕ) (t : Trace)
        → Excluded t
        → k.opens (at t) q read_write path ≡ ok fd
        → file_of k path q fd (at (open_file read_write path ∷ t)) ≡ some f
    opened-Excluded fd t owns e =
        rely.descriptors (open_file read_write path) t fd
        ∙ ground (arith, e, owns.0, text_eq_self path)

    pub scanned :
        (fd : ℕ) (t : Trace)
        → Excluded t
        → file_of k path q fd (at t) ≡ some f
        → k.scans (at t) q fd ≡ some (pos r)
    scanned fd t owns e = posix.reads (at t) q fd f e ∙ owns.2

    pub refused :
        (fd : ℕ) (t : Trace)
        → Excluded t
        → file_of k path q fd (at t) ≡ some f
        → succeeded (k.locks (at t) q fd) ≡ false
    refused fd t owns e = posix.refuses (at t) q r fd f e owns.1 other

    after_open-Excluded :
        (h : Trace) (fd : ℕ)
        → Excluded h
        → k.opens (at h) q read_write path ≡ ok fd
        → Fails (λ _ t. Excluded t) (look_into env path fd (open_file read_write path ∷ h))
    unfolding look_into
    after_open-Excluded h fd owns e =
        let h1 : Trace = open_file read_write path ∷ h in
        let h2 : Trace = fdopen fd ∷ h1 in
        let h3 : Trace = scan_pid fd ∷ h2 in
        let h4 : Trace = lock_fd fd ∷ h3 in
        let o1 : Excluded h1 = rely.keeps (open_file read_write path) h owns in
        let o2 : Excluded h2 = rely.keeps (fdopen fd) h1 o1 in
        let o3 : Excluded h3 = rely.keeps (scan_pid fd) h2 o2 in
        let o4 : Excluded h4 = rely.keeps (lock_fd fd) h3 (ground (arith, o3)) in
        let d1 : file_of k path q fd (at h1) ≡ some f = opened-Excluded fd h owns e in
        let d2 : file_of k path q fd (at h2) ≡ some f = rely.descriptors (fdopen fd) h1 fd ∙ d1 in
        let d3 : file_of k path q fd (at h3) ≡ some f = rely.descriptors (scan_pid fd) h2 fd ∙ d2 in
        ground (
          arith,
          scanned fd h2 o2 d2,
          refused fd h3 o3 d3,
          other,
          close-Excluded fd h2 o2,
          close-Excluded fd h4 o4,
        )

    reclaim-Excluded : (h : Trace) → Excluded h → Fails (λ _ t. Excluded t) (reclaim env path h)
    unfolding reclaim
    reclaim-Excluded h owns =
        let h1 : Trace = open_file read_write path ∷ h in go (k.opens (at h) q read_write path) refl
      where
        go :
            (a : Answer ℕ)
            → k.opens (at h) q read_write path ≡ a
            → Fails
                (λ _ t. Excluded t)
                ((checked (open_file read_write path) (λ t. a) >>= look_into env path) h)
        go (ok fd) e = after_open-Excluded h fd owns e
        go (fail n) e = rely.keeps (open_file read_write path) h owns

    open_fresh-Excluded :
        (h : Trace) → Excluded h → Fails (λ _ t. Excluded t) (open_fresh env path h)
    unfolding open_fresh
    open_fresh-Excluded h owns =
        let h1 : Trace = open_file create_excl path ∷ h in
        let closed : succeeded (k.opens (at h) q create_excl path) ≡ false =
          posix.exclusive (at h) q f owns.0 in
        let o1 : Excluded h1 =
          rely.keeps (open_file create_excl path) h (ground (arith, owns, closed)) in
        ground (arith, closed, o1, reclaim-Excluded h1 o1)

    -- Where the file of the path is another instance's, `allocate` throws, at whatever of its calls
    -- other processes come in between, and the file stays that instance's.
    allocate-Excluded : (h : Trace) → Excluded h → Fails (λ _ t. Excluded t) (allocate env path h)
    unfolding allocate
    allocate-Excluded h owns =
        let h1 : Trace = create_directories (base.parent_path path) ∷ h in
        let o1 : Excluded h1 = rely.keeps (create_directories (base.parent_path path)) h owns in
        ground (arith, o1, open_fresh-Excluded h1 o1)

module _ (base : Env) (k : Kernel) (path : Text) (p : ℕ) (at : Trace → History)
    (alone : (c : Call) (t : Trace) → at (c ∷ t) ≡ (p, c) ∷ at t) where
  Holds-Owns : (t : Trace) → Holds (env_of base k p at) path t → (f : ℕ) × Owns k path p f (at t)
  Holds-Owns
        (set_cloexec fd
          ∷ (write_pid a pid ∷ (fdopen b ∷ (lock_fd c ∷ (open_file create_excl o ∷ before)))))
        holds =
      let h1 : Trace = open_file create_excl o ∷ before in
      let h2 : Trace = lock_fd c ∷ h1 in
      let h3 : Trace = fdopen b ∷ h2 in
      let h4 : Trace = write_pid a pid ∷ h3 in
      (
        length (at before),
        rw
            (
              alone (set_cloexec fd) h4,
              alone (write_pid a pid) h3,
              alone (fdopen b) h2,
              alone (lock_fd c) h1,
              alone (open_file create_excl o) before,
            )
            (ground (
              arith,
              holds,
              text_eq_self path,
              rw (alone (open_file create_excl path) before) at holds.5,
            )),
      )
  Holds-Owns _ holds = absurd holds

  -- An instance that allocates the pid file alone owns it then.
  pub allocate-Owns :
      (h : Trace)
      → Returns (λ _ t. (f : ℕ) × Owns k path p f (at t)) (allocate (env_of base k p at) path h)
  allocate-Owns h =
      Returns-weaken (allocate (env_of base k p at) path h)
        (allocate-Holds (env_of base k p at) path h) (λ _ t holds. Holds-Owns t holds)

  module _ (base' : Env) (q : ℕ) (at' : Trace → History) where
    -- The other instance is refused, and the file stays with the first.
    abbrev pub Refused : Trace → Type 0
    Refused g =
        Fails (λ _ u. (f : ℕ) × Owns k path p f (at' u)) (allocate (env_of base' k q at') path g)

    excluded :
        (g : Trace) (f : ℕ)
        → Posix k path
        → (p == q) ≡ false
        → Rely base' k path q p f at'
        → Owns k path p f (at' g)
        → Refused g
    excluded g f posix other rely owns =
        Fails-weaken (allocate (env_of base' k q at') path g)
          (allocate-Excluded base' k path q p f at' posix rely other g owns) (λ _ u o. (f, o))

    -- On a file system that behaves as documented, an instance that allocates the pid file alone
    -- shuts out every later one: the `allocate` of another process throws, whatever is done between
    -- its calls by processes that leave the file and its descriptors alone, and the first instance
    -- owns the file also then.
    pub allocate_twice :
        (h g : Trace)
        → Posix k path
        → (p == q) ≡ false
        → ((f : ℕ) → Rely base' k path q p f at')
        → at' g ≡ at (trace_of (allocate (env_of base k p at) path h))
        → Returns (λ _ t. Refused g) (allocate (env_of base k p at) path h)
    allocate_twice h g posix other rely start =
        go (allocate (env_of base k p at) path h) (allocate-Owns h) start
      where
        go :
            (r : Run (Unit {0}))
            → Returns (λ _ t. (f : ℕ) × Owns k path p f (at t)) r
            → at' g ≡ at (trace_of r)
            → Returns (λ _ t. Refused g) r
        go (done u t) (f, owns) e = excluded g f posix other (rely f) (rw e owns)
        go (threw x t) owns e = tt
        go (quit c t) owns e = tt
        go (undefined t) owns e = tt
