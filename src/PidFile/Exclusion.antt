-- ===== src/PidFile/Exclusion.antt =====
-- service/pidfile.cpp, `allocate`: when the pid file changes hands.
use libservice.Prelude.{ℕ, suc, ℤ, eq_ℤ, Text, false, some, [], ◌∷◌, ◌≡◌, arith}
use libservice.Os.{
  Env, create_excl, read_write, Fails, create_directories, Returns, M, ◌>>=◌, ◌>>◌, bind_rule,
  open_file, fdopen, lock_fd, unlink, write_pid, set_cloexec, Trace, ok, fail, done,
}
use libservice.PidFile.{
  eexist, eagain, allocate, reclaim, open_fresh, lock_checked, stream, write_own_pid, scoped,
  opened,
}

-- How often the trace removes the path.
abbrev pub unlinks_of : Trace → ℕ
unlinks_of [] = 0
unlinks_of (unlink p ∷ t) = suc (unlinks_of t)
unlinks_of (_ ∷ t) = unlinks_of t

module _ (env : Env) (path : Text) where
  abbrev Created : ℕ → Trace → Type 0
  Created fd (open_file create_excl p ∷ before) =
      (p ≡ path) × (env.opens before create_excl path ≡ ok fd)
  Created fd _ = ⊥

  reclaim-Created : (h : Trace) → Returns Created (reclaim env path h)
  unfolding reclaim
  reclaim-Created h = ground arith

  open_fresh-Created : (h : Trace) → Returns Created (open_fresh env path h)
  unfolding open_fresh
  open_fresh-Created h = ground (arith, reclaim-Created (open_file create_excl path ∷ h))

  Created-shape :
      (fd : ℕ) (t : Trace)
      → Created fd t
      → (before : Trace) × (t ≡ open_file create_excl path ∷ before)
        × (env.opens before create_excl path ≡ ok fd)
  Created-shape fd (open_file create_excl p ∷ before) c = (before, rw (c.0), c.1)
  Created-shape fd _ c = absurd c

  returned : (fd : ℕ) (t h : Trace) → open_fresh env path h ≡ done fd t → Created fd t
  returned fd t h e = rw e at (open_fresh-Created h)

  -- The file was created by this run and no other, its descriptor is locked and still open, and our
  -- process id stands in it.
  abbrev pub Holds : Trace → Type 0
  Holds
        (set_cloexec fd
          ∷ write_pid a pid
          ∷ fdopen b
          ∷ lock_fd c
          ∷ open_file create_excl p
          ∷ before) =
      (p ≡ path)
      × (env.opens before create_excl path ≡ ok fd)
      × (a ≡ fd)
      × (b ≡ fd)
      × (c ≡ fd)
      × (env.locks (open_file create_excl path ∷ before) fd ≡ ok tt)
      × (pid ≡ env.getpid (fdopen fd ∷ lock_fd fd ∷ open_file create_excl path ∷ before))
  Holds _ = ⊥

  -- What `allocate` does once the file is created.
  unfoldable pub finish_allocate : ℕ → M (Unit {0})
  unfolding scoped lock_checked stream write_own_pid
  finish_allocate fd = do
    scoped (opened fd) (lock_checked env fd)
    scoped (opened fd) (stream env fd)
    write_own_pid env fd

  finish_allocate-Holds :
      (before : Trace) (fd : ℕ)
      → env.opens before create_excl path ≡ ok fd
      → Returns (λ _ t. Holds t) (finish_allocate fd (open_file create_excl path ∷ before))
  unfolding finish_allocate scoped lock_checked stream write_own_pid
  finish_allocate-Holds before fd e = ground arith

  -- Whatever the environment answers, `allocate` returns only when it created the pid file itself,
  -- exclusively, with its descriptor locked and left open, and our own process id written to it.
  pub allocate-Holds : (h : Trace) → Returns (λ _ t. Holds t) (allocate env path h)
  unfolding allocate finish_allocate
  allocate-Holds h =
      let made : Trace = create_directories (env.parent_path path) ∷ h in
      let fresh : Returns (λ _ t. Holds t) ((open_fresh env path >>= finish_allocate) made) =
        bind_rule (Returns (λ _ t. Holds t)) (open_fresh env path) finish_allocate made
          (λ fd t e.
            let (before, shape, created) = Created-shape fd t (returned fd t made e) in
            rw shape (finish_allocate-Holds before fd created))
          (λ e t x. tt) (λ c t x. tt) (λ t x. tt) in
      ground (arith, fresh)

module _ (env : Env) (path : Text) (pid : ℤ) where
  -- The pid file exists and names another process, which holds the lock of whatever opens the file.
  pub record Running : Type 0 where
    pub exists : (t : Trace) → env.opens t create_excl path ≡ fail eexist
    pub names :
        (t s : Trace) (fd : ℕ) → env.opens s read_write path ≡ ok fd → env.scans t fd ≡ some pid
    pub other : (t : Trace) → eq_ℤ pid (env.getpid t) ≡ false
    pub held :
        (t s : Trace) (fd : ℕ) → env.opens s read_write path ≡ ok fd → env.locks t fd ≡ fail eagain

  -- A running instance keeps its pid file: `allocate` throws, and removes nothing on the way.
  allocate-Running :
      (h : Trace) → Running → Fails (λ _ t. unlinks_of t ≡ unlinks_of h) (allocate env path h)
  unfolding allocate open_fresh reclaim
  allocate-Running h r = grind (arith, r.exists, r.names, r.other, r.held)
