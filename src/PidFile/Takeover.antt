-- ===== src/PidFile/Takeover.antt =====
-- service/pidfile.cpp, `allocate`: a pid file that names no process yet is taken.
use libservice.Prelude.{ℕ, Text, none, some, ◌∷◌, ◌≡◌, arith, ◌∙◌, text_eq_self}
use libservice.Os.{
  Env, Call, create_directories, create_excl, read_write, open_file, fdopen, scan_pid, lock_fd,
  unlink, close_fd, Trace, ok, fail, Completes, Completes-bind, Completes-returns, ◌>>=◌,
}
use libservice.PidFile.{
  eexist, allocate, open_fresh, reclaim, look_into, scoped, lock_checked, stream, write_own_pid,
}
use libservice.PidFile.Exclusion.{finish_allocate}
use libservice.PidFile.World.{History, Kernel, env_of, file_at, file_of, content, Posix, Owns}
use libservice.PidFile.Instances.{allocate-Owns}

module _ (base : Env) (k : Kernel) (path : Text) (q : ℕ) (at : Trace → History)
    (alone : (c : Call) (t : Trace) → at (c ∷ t) ≡ (q, c) ∷ at t) where
  abbrev env : Env
  env = env_of base k q at

  -- What the process asks for is granted: it may open, remove and create the file, a file that exists is
  -- not created again, and the lock of a file that was just created is free.
  pub record Granted : Type 0 where
    pub exists :
        (g : History) (f : ℕ)
        → file_at k path g ≡ some f
        → k.opens g q create_excl path ≡ fail eexist
    pub creates :
        (g : History) → file_at k path g ≡ none → (fd : ℕ) × (k.opens g q create_excl path ≡ ok fd)
    pub reopens :
        (g : History) (f : ℕ)
        → file_at k path g ≡ some f
        → (fd : ℕ) × (k.opens g q read_write path ≡ ok fd)
    pub removes : (g : History) (f : ℕ) → file_at k path g ≡ some f → k.unlinks g q path ≡ ok tt
    pub locks :
        (g : History) (fd : ℕ)
        → k.opens g q create_excl path ≡ ok fd
        → k.locks ((q, open_file create_excl path) ∷ g) q fd ≡ ok tt
    pub directories : (t : Trace) (p : Text) → base.makes_directories t p ≡ ok tt
    pub streams : (t : Trace) (fd : ℕ) → base.fdopens t fd ≡ ok tt

  module _ (posix : Posix k path) (granted : Granted) (f : ℕ) where
    -- The file of the path is this one, and nothing is written to it.
    abbrev Unwritten : Trace → Type 0
    Unwritten t = (file_at k path (at t) ≡ some f) × (content k path f (at t) ≡ none)

    -- The new file is created, and not yet locked.
    abbrev Fresh : ℕ → Trace → Type 0
    Fresh fd (open_file create_excl p ∷ t) =
        (p ≡ path) × (k.opens (at t) q create_excl path ≡ ok fd)
    Fresh fd _ = ⊥

    look_into-Fresh :
        (h : Trace) (fd : ℕ)
        → Unwritten h
        → k.opens (at h) q read_write path ≡ ok fd
        → Completes Fresh (look_into env path fd (open_file read_write path ∷ h))
    unfolding look_into
    look_into-Fresh h fd un e =
        let h1 : Trace = open_file read_write path ∷ h in
        let h2 : Trace = fdopen fd ∷ h1 in
        let h3 : Trace = scan_pid fd ∷ h2 in
        let h4 : Trace = unlink path ∷ h3 in
        let h5 : Trace = close_fd fd ∷ h4 in
        let h6 : Trace = unlink path ∷ h5 in
        let d2 : file_of k path q fd (at h2) ≡ some f =
          rw (alone (fdopen fd) h1, alone (open_file read_write path) h)
            (ground (arith, e, un.0, text_eq_self path)) in
        let named : k.scans (at h2) q fd ≡ none =
          posix.reads (at h2) q fd f d2
          ∙ rw (alone (fdopen fd) h1, alone (open_file read_write path) h) un.1 in
        let removed : k.unlinks (at h3) q path ≡ ok tt = granted.removes (at h3) f (
          rw (alone (scan_pid fd) h2, alone (fdopen fd) h1, alone (open_file read_write path) h)
            un.0) in
        let gone : file_at k path (at h6) ≡ none =
          rw (alone (unlink path) h5, alone (close_fd fd) h4, alone (unlink path) h3)
            (ground (arith, removed, text_eq_self path)) in
        let created : (new : ℕ) × (k.opens (at h6) q create_excl path ≡ ok new) =
          granted.creates (at h6) gone in
        ground (arith, granted.streams h1 fd, named, removed, created.1)

    open_fresh-Fresh : (h : Trace) → Unwritten h → Completes Fresh (open_fresh env path h)
    unfolding open_fresh reclaim
    open_fresh-Fresh h un =
        let h1 : Trace = open_file create_excl path ∷ h in
        let refused : k.opens (at h) q create_excl path ≡ fail eexist =
          granted.exists (at h) f un.0 in
        let un1 : Unwritten h1 = (
          rw (alone (open_file create_excl path) h) (ground (arith, refused, un.0)),
          rw (alone (open_file create_excl path) h) un.1,
        ) in
        let again : (fd : ℕ) × (k.opens (at h1) q read_write path ≡ ok fd) =
          granted.reopens (at h1) f un1.0 in
        ground (arith, refused, again.1, look_into-Fresh h1 again.0 un1 again.1)

    finish_allocate-Completes :
        (fd : ℕ) (t : Trace)
        → Fresh fd t
        → Completes (λ u w. Unit {0}) (finish_allocate env path fd t)
    unfolding finish_allocate scoped lock_checked stream write_own_pid
    finish_allocate-Completes fd (open_file create_excl p ∷ t) (e, created) = ground (
      arith,
      rw (← alone (open_file create_excl path) t) at (granted.locks (at t) fd created),
      e,
      granted.streams (lock_fd fd ∷ (open_file create_excl path ∷ t)) fd,
    )
    finish_allocate-Completes fd _ fresh = absurd fresh

    -- A pid file in which no process id stands is taken, also from a process that holds its lock: where
    -- the file system behaves as documented and grants what the second process asks for, its `allocate`
    -- returns as the owner of a new file.
    pub allocate-Unwritten :
        (h : Trace)
        → Unwritten h
        → Completes (λ u t. (new : ℕ) × Owns k path q new (at t)) (allocate env path h)
    unfolding allocate finish_allocate
    allocate-Unwritten h un =
        let made : Trace = create_directories (base.parent_path path) ∷ h in
        let un1 : Unwritten made = (
          rw (alone (create_directories (base.parent_path path)) h) un.0,
          rw (alone (create_directories (base.parent_path path)) h) un.1,
        ) in
        let rest : Completes (λ u w. Unit {0})
            ((open_fresh env path >>= finish_allocate env path) made) =
          Completes-bind Fresh (λ u w. Unit {0}) (open_fresh env path) (finish_allocate env path)
            made (open_fresh-Fresh made un1) finish_allocate-Completes in
        Completes-returns (λ u w. Unit {0}) _ (allocate env path h)
          (ground (arith, granted.directories h (base.parent_path path), rest))
          (allocate-Owns base k path q at alone h)
