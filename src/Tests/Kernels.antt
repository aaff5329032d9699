-- ===== src/Tests/Kernels.antt =====
-- A file system with the pid file, and two instances on it: one after the other, and one in the middle
-- of the other.
mod Takeovers
use libservice.Prelude.{
  ℕ, ◌+◌, ℤ, Text, text_eq, Bool, true, false, ◌&&◌, Option, none, some, [], ◌∷◌, ◌++◌, ◌≡◌, refl,
  arith, ◌==◌, length, if◌then◌else◌,
}
use libservice.Os.{
  OpenMode, create_excl, open_file, unlink, close_fd, lock_fd, write_pid, Trace, create_directories,
  Run, done, Returns, trace_of, Answer, ok, fail,
}
use libservice.PidFile.{eexist, eagain, ebadf, enoent, allocate}
use libservice.PidFile.World.{
  History, Kernel, env_of, is_file, file_at, file_of, has_lock, content, Posix,
}
use libservice.PidFile.Instances.{Refused, allocate_twice}
use libservice.PidFile.Delivery.{Reached, signal_reaches}
use libservice.Tests.Environments.{calm, pid_path}

-- The file of the path. An `open` gives the length of the history, plus three, as descriptor.
named : History → Option ℕ
named [] = none
named ((q, open_file create_excl p) ∷ g) =
    let before = named g in
    if text_eq p pid_path then elim before [ none ↦ some (length g) | some f ↦ some f ] else before
named ((q, unlink p) ∷ g) = let before = named g in if text_eq p pid_path then none else before
named (_ ∷ g) = named g

abbrev new_fd : History → ℕ
new_fd g = length g + 3

-- The file of a descriptor.
abbrev to_create : Option ℕ → ℕ → Answer ℕ
to_create none fd = ok fd
to_create (some f) fd = fail eexist

abbrev to_open : Option ℕ → ℕ → Answer ℕ
to_open none fd = fail enoent
to_open (some f) fd = ok fd

-- Other paths have no files.
abbrev opens : History → ℕ → OpenMode → Text → Answer ℕ
opens g q create_excl p = if text_eq p pid_path then to_create (named g) (new_fd g) else fail enoent
opens g q mode p = if text_eq p pid_path then to_open (named g) (new_fd g) else fail enoent

abbrev opened_as : Answer ℕ → ℕ → Bool
opened_as (ok a) fd = a == fd
opened_as (fail e) fd = false

describes : ℕ → ℕ → History → Option ℕ
unfolding named
describes r fd [] = none
describes r fd ((q, open_file create_excl p) ∷ g) =
    let before = describes r fd g in
    if q == r && opened_as (opens g q create_excl p) fd then some (length g) else before
describes r fd ((q, open_file mode p) ∷ g) =
    let before = describes r fd g in
    if q == r && opened_as (opens g q mode p) fd then named g else before
describes r fd ((q, close_fd c) ∷ g) =
    let before = describes r fd g in if q == r && c == fd then none else before
describes r fd (_ ∷ g) = describes r fd g

abbrev free_for : ℕ → Option ℕ → Bool
free_for q none = true
free_for q (some r) = r == q

-- The process that has the lock of a file.
holder : ℕ → History → Option ℕ
unfolding describes
holder f [] = none
holder f ((q, lock_fd fd) ∷ g) =
    let before = holder f g in
    if is_file (describes q fd g) f && free_for q before then some q else before
holder f ((q, close_fd fd) ∷ g) =
    let before = holder f g in
    if is_file (describes q fd g) f && is_file before q then none else before
holder f (_ ∷ g) = holder f g

written : ℕ → History → Option ℤ
unfolding describes
written f [] = none
written f ((q, write_pid fd pid) ∷ g) =
    let before = written f g in if is_file (describes q fd g) f then some pid else before
written f (_ ∷ g) = written f g

abbrev to_lock : History → ℕ → Option ℕ → Answer (Unit {0})
to_lock g q none = fail ebadf
to_lock g q (some f) = if free_for q (holder f g) then ok tt else fail eagain

abbrev to_scan : History → Option ℕ → Option ℤ
to_scan g none = none
to_scan g (some f) = written f g

abbrev kernel : Kernel
kernel = record {
  opens = opens;
  scans = λ g q fd. to_scan g (describes q fd g);
  locks = λ g q fd. to_lock g q (describes q fd g);
  unlinks = λ g q p.
      if text_eq p pid_path
      then elim (named g) [ none ↦ fail enoent | some f ↦ ok tt ]
      else fail enoent;
}

file_at-named : (g : History) → file_at kernel pid_path g ≡ named g
unfolding named
file_at-named [] = refl
file_at-named ((q, open_file create_excl p) ∷ g) = ground (arith, file_at-named g)
file_at-named ((q, unlink p) ∷ g) = ground (arith, file_at-named g)
file_at-named ((q, c) ∷ g) = ground (arith, file_at-named g)

file_of-describes : (r fd : ℕ) (g : History) → file_of kernel pid_path r fd g ≡ describes r fd g
unfolding describes
file_of-describes r fd [] = refl
file_of-describes r fd ((q, open_file mode p) ∷ g) =
    ground (arith, file_of-describes r fd g, file_at-named g)
file_of-describes r fd ((q, c) ∷ g) = ground (arith, file_of-describes r fd g)

content-written : (f : ℕ) (g : History) → content kernel pid_path f g ≡ written f g
unfolding written
content-written f [] = refl
content-written f ((q, write_pid fd pid) ∷ g) =
    ground (arith, content-written f g, file_of-describes q fd g)
content-written f ((q, c) ∷ g) = ground (arith, content-written f g)

has_lock-holder : (r f : ℕ) (g : History) → has_lock kernel pid_path r f g ≡ is_file (holder f g) r
unfolding holder
has_lock-holder r f [] = refl
has_lock-holder r f ((q, lock_fd fd) ∷ g) =
    ground (arith, has_lock-holder r f g, file_of-describes r fd g)
has_lock-holder r f ((q, close_fd fd) ∷ g) =
    ground (arith, has_lock-holder r f g, file_of-describes r fd g)
has_lock-holder r f ((q, c) ∷ g) = ground (arith, has_lock-holder r f g)

posix : Posix kernel pid_path
unfolding named describes holder written
posix = record {
  present = λ g q f e. ground (arith, e, file_at-named g);
  exclusive = λ g q f e. ground (arith, e, file_at-named g);
  reads = λ g q fd f e. ground (arith, e, file_of-describes q fd g, content-written f g);
  refuses = λ g q r fd f e lock other.
      ground (arith, e, lock, other, file_of-describes q fd g, has_lock-holder r f g);
}

abbrev by : ℕ → Trace → History
by q [] = []
by q (c ∷ t) = (q, c) ∷ by q t

abbrev first : Run (Unit {0})
first = allocate (env_of calm kernel 7 (by 7)) pid_path []

abbrev after_first : Trace → History
after_first t = by 8 t ++ by 7 (trace_of first)

allocate_twice_example :
    Returns (λ _ t. Refused calm kernel pid_path 7 (by 7) (λ c t. refl) calm 8 after_first []) first
allocate_twice_example =
    allocate_twice calm kernel pid_path 7 (by 7) (λ c t. refl) calm 8 after_first [] [] posix refl
      (λ f. record { keeps = λ c t o. o; descriptors = λ c t fd. refl }) refl

signal_reaches_example :
    Returns
      (λ _ t. Reached calm calm kernel pid_path 7 8 (by 7) after_first (λ c u. refl) 15 false [])
      first
signal_reaches_example =
    signal_reaches calm calm kernel pid_path 7 8 (by 7) after_first (λ c u. refl) 15 false [] []
      posix refl (λ f. record { keeps = λ c t o. o; descriptors = λ c t fd. refl }) refl

-- The first instance returns indeed.
is_done : Run (Unit {0}) → Bool
is_done (done u t) = true
is_done _ = false

first_returns : is_done first ≡ true
unfolding is_done allocate named describes holder written
first_returns = refl

-- An instance that starts when another has created the pid file, but has neither locked nor written
-- it, takes the file for stale, and both return.
abbrev created : Trace
created = open_file create_excl pid_path ∷ (create_directories pid_path ∷ [])

abbrev between : Trace → History
between t = by 8 t ++ by 7 created

abbrev second : Run (Unit {0})
second = allocate (env_of calm kernel 8 between) pid_path []

-- The calls of the first instance, with the second's after the first two.
abbrev around : Trace → History
around [] = []
around (c ∷ t) =
    let before = around t in
    (7, c) ∷ (if length t == 2 then by 8 (trace_of second) ++ before else before)

abbrev interrupted : Run (Unit {0})
interrupted = allocate (env_of calm kernel 7 around) pid_path []

both_return : (is_done second ≡ true) × (is_done interrupted ≡ true)
unfolding is_done allocate named describes holder written
both_return = (refl, refl)
