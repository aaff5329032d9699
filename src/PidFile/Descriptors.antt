-- ===== src/PidFile/Descriptors.antt =====
-- service/pidfile.cpp: the descriptors that `allocate` and `signal` open and close.
use libservice.Prelude.{ℕ, suc, ◌+◌, ◌<◌, Text, Bool, [], ◌∷◌, ◌≡◌, arith, ◌==◌, if◌then◌else◌}
use libservice.Os.{
  Env, OpenMode, create_excl, open_file, close_fd, set_cloexec, create_directories, Trace, ok, fail,
  Run, Returns, done, threw, quit, undefined,
}
use libservice.PidFile.{allocate, signal, reclaim, open_fresh}

module _ (env : Env) where
  -- How often a trace opened this descriptor.
  abbrev pub opens_in : ℕ → Trace → ℕ
  opens_in d [] = 0
  opens_in d (open_file mode path ∷ t) =
      let before = opens_in d t in
      elim (env.opens t mode path) [
        | ok fd ↦ if fd == d then suc before else before
        | fail e ↦ before
      ]
  opens_in d (_ ∷ t) = opens_in d t

  -- How often it closed it.
  abbrev pub closes_in : ℕ → Trace → ℕ
  closes_in d [] = 0
  closes_in d (close_fd fd ∷ t) =
      let before = closes_in d t in if fd == d then suc before else before
  closes_in d (_ ∷ t) = closes_in d t

  -- From `h` to `t`, this descriptor was opened as often as it was closed, and `n` times more.
  abbrev pub Keeps : ℕ → ℕ → Trace → Trace → Type 0
  Keeps n d h t = opens_in d t + closes_in d h ≡ n + closes_in d t + opens_in d h

  abbrev one : ℕ → ℕ → ℕ
  one fd d = if fd == d then 1 else 0

  -- A run keeps the descriptor of the pid file when it returns, and none when it throws.
  abbrev pub KeepsPidFile {ℓ} : {A : Type ℓ} → ℕ → Trace → Run A → Type 0
  KeepsPidFile d h (done a (set_cloexec fd ∷ t)) = Keeps (one fd d) d h t
  KeepsPidFile d h (done a t) = ⊥
  KeepsPidFile d h (threw e t) = Keeps 0 d h t
  KeepsPidFile d h (quit c t) = Keeps 0 d h t
  KeepsPidFile d h (undefined t) = ⊥

  -- A run keeps none.
  abbrev pub Balanced {ℓ} : {A : Type ℓ} → ℕ → Trace → Run A → Type 0
  Balanced d h (done a t) = Keeps 0 d h t
  Balanced d h (threw e t) = Keeps 0 d h t
  Balanced d h (quit c t) = Keeps 0 d h t
  Balanced d h (undefined t) = ⊥

  -- A run keeps the descriptor that it returns.
  abbrev KeepsOwn : ℕ → Trace → Run ℕ → Type 0
  KeepsOwn d h (done fd t) = Keeps (one fd d) d h t
  KeepsOwn d h (threw e t) = Keeps 0 d h t
  KeepsOwn d h (quit c t) = Keeps 0 d h t
  KeepsOwn d h (undefined t) = ⊥

  -- Standard input is open, so that no `open` answers 0.
  abbrev pub Positive : Type 0
  Positive =
      (t : Trace) (mode : OpenMode) (path : Text) (fd : ℕ) → env.opens t mode path ≡ ok fd → 0 < fd

  module _ (positive : Positive) where
    reclaim-KeepsOwn : (d : ℕ) (path : Text) (h : Trace) → KeepsOwn d h (reclaim env path h)
    unfolding reclaim
    reclaim-KeepsOwn d path h = grind (arith, positive)

    open_fresh-KeepsOwn : (d : ℕ) (path : Text) (h : Trace) → KeepsOwn d h (open_fresh env path h)
    unfolding open_fresh
    open_fresh-KeepsOwn d path h =
        grind (arith, positive, reclaim-KeepsOwn d path (open_file create_excl path ∷ h))

    open_fresh_pos : (path : Text) (h : Trace) → Returns (λ fd _. 0 < fd) (open_fresh env path h)
    unfolding open_fresh reclaim
    open_fresh_pos path h = grind (arith, positive)

    -- No descriptor leaks, where no `open` answers 0: every descriptor that `allocate` opens it closes
    -- as often, but for the one that it marks at its end, which stays open; when it throws it has closed
    -- every one that it opened.
    pub allocate-Balanced :
        (d : ℕ) (path : Text) (h : Trace) → KeepsPidFile d h (allocate env path h)
    unfolding allocate
    allocate-Balanced d path h =
        let created : Trace = create_directories (env.parent_path path) ∷ h in
        ground (arith, open_fresh-KeepsOwn d path created, open_fresh_pos path created)

    -- `signal` closes each descriptor as often as it opens it, on every path, where no `open` answers
    -- 0.
    pub signal-Balanced :
        (d : ℕ) (path : Text) (signo : ℕ) (report : Bool) (h : Trace)
        → Balanced d h (signal env path signo report h)
    unfolding signal
    signal-Balanced d path signo report h = grind (arith, positive)
