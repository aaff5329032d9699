-- ===== src/PidFile/World.antt =====
-- service/pidfile.cpp, `allocate`, by several processes on one file system: the history of their calls,
-- and what it says of the pid file.
use libservice.Prelude.{
  ℕ, ℤ, pos, Text, text_eq, Bool, true, false, ◌&&◌, Option, none, some, List, [], ◌∷◌, ◌≡◌, ◌==◌,
  length, if◌then◌else◌,
}
use libservice.Os.{
  Env, OpenMode, create_excl, read_write, read_only, open_file, unlink, close_fd, lock_fd,
  write_pid, Call, Trace, Answer, ok, fail,
}
use libservice.PidFile.{enoent}

-- The calls of all processes, newest first, each with the process that made it.
abbrev pub History : Type 0
History = List (ℕ × Call)

-- The answers of the operating system, which all processes share.
pub record Kernel : Type 0 where
  pub opens : History → ℕ → OpenMode → Text → Answer ℕ
  pub scans : History → ℕ → ℕ → Option ℤ
  pub locks : History → ℕ → ℕ → Answer (Unit {0})
  pub unlinks : History → ℕ → Text → Answer (Unit {0})

-- What a process sees whose calls stand in the history as `at` tells.
abbrev pub env_of : Env → Kernel → ℕ → (Trace → History) → Env
env_of base k q at = record base {
  getpid = λ t. pos q;
  opens = λ t mode path. k.opens (at t) q mode path;
  scans = λ t fd. k.scans (at t) q fd;
  locks = λ t fd. k.locks (at t) q fd;
  unlinks = λ t path. k.unlinks (at t) q path;
}

abbrev pub is_file : Option ℕ → ℕ → Bool
is_file none f = false
is_file (some g) f = g == f

abbrev pub opened_as : Answer ℕ → ℕ → Bool
opened_as (ok a) fd = a == fd
opened_as (fail e) fd = false

abbrev pub succeeded {ℓ} : {A : Type ℓ} → Answer A → Bool
succeeded (ok a) = true
succeeded (fail e) = false

abbrev pub says_missing {ℓ} : {A : Type ℓ} → Answer A → Bool
says_missing (ok a) = false
says_missing (fail e) = e == enoent

module _ (k : Kernel) (path : Text) where
  -- The file of that path: a file is named by the length of the history when it was created.
  abbrev pub file_at : History → Option ℕ
  file_at [] = none
  file_at ((q, open_file create_excl p) ∷ g) =
      let before = file_at g in
      if text_eq p path && succeeded (k.opens g q create_excl p) then some (length g) else before
  file_at ((q, unlink p) ∷ g) =
      let before = file_at g in
      if text_eq p path && succeeded (k.unlinks g q p) then none else before
  file_at (_ ∷ g) = file_at g

  -- The file that a descriptor of a process stands for, if it is one of that path.
  abbrev pub file_of : ℕ → ℕ → History → Option ℕ
  file_of r fd [] = none
  file_of r fd ((q, open_file create_excl p) ∷ g) =
      let before = file_of r fd g in
      if q == r && opened_as (k.opens g q create_excl p) fd
      then (if text_eq p path then some (length g) else none)
      else before
  file_of r fd ((q, open_file read_write p) ∷ g) =
      let before = file_of r fd g in
      if q == r && opened_as (k.opens g q read_write p) fd
      then (if text_eq p path then file_at g else none)
      else before
  file_of r fd ((q, open_file read_only p) ∷ g) =
      let before = file_of r fd g in
      if q == r && opened_as (k.opens g q read_only p) fd
      then (if text_eq p path then file_at g else none)
      else before
  file_of r fd ((q, close_fd c) ∷ g) =
      let before = file_of r fd g in if q == r && c == fd then none else before
  file_of r fd (_ ∷ g) = file_of r fd g

  -- Whether a process has the lock of a file: closing any descriptor of the file gives it up.
  abbrev pub has_lock : ℕ → ℕ → History → Bool
  has_lock r f [] = false
  has_lock r f ((q, lock_fd fd) ∷ g) =
      let before = has_lock r f g in
      if q == r && (is_file (file_of r fd g) f && succeeded (k.locks g q fd)) then true else before
  has_lock r f ((q, close_fd fd) ∷ g) =
      let before = has_lock r f g in if q == r && is_file (file_of r fd g) f then false else before
  has_lock r f (_ ∷ g) = has_lock r f g

  -- The process id in a file.
  abbrev pub content : ℕ → History → Option ℤ
  content f [] = none
  content f ((q, write_pid fd pid) ∷ g) =
      let before = content f g in if is_file (file_of q fd g) f then some pid else before
  content f (_ ∷ g) = content f g

  -- The documented behaviour of `open`, of reading and of `fcntl`.
  pub record Posix : Type 0 where
    pub present :
        (g : History) (q f : ℕ)
        → file_at g ≡ some f
        → says_missing (k.opens g q read_only path) ≡ false
    pub exclusive :
        (g : History) (q f : ℕ)
        → file_at g ≡ some f
        → succeeded (k.opens g q create_excl path) ≡ false
    pub reads : (g : History) (q fd f : ℕ) → file_of q fd g ≡ some f → k.scans g q fd ≡ content f g
    pub refuses :
        (g : History) (q r fd f : ℕ)
        → file_of q fd g ≡ some f
        → has_lock r f g ≡ true
        → (r == q) ≡ false
        → succeeded (k.locks g q fd) ≡ false

  -- A process runs as the service: the file of the path is its own, locked, with its process id.
  abbrev pub Owns : ℕ → ℕ → History → Type 0
  Owns r f g = (file_at g ≡ some f) × (has_lock r f g ≡ true) × (content f g ≡ some (pos r))
