-- ===== src/PidFile/Held.antt =====
-- service/pidfile.cpp, `allocate`: that a process has the pid file, read off its calls.
use libservice.Prelude.{
  ℕ, ℤ, pos, negsuc, Text, text_eq, text_eq_self, eq_ℤ, Bool, true, false, not, ◌&&◌, ◌||◌, [], ◌∷◌,
  ◌≡◌, arith, ◌==◌,
}
use libservice.Os.{
  Env, create_excl, open_file, fdopen, lock_fd, unlink, rename, remove_all, close_fd, write_pid,
  set_cloexec, Trace, Returns, Returns-weaken,
}
use libservice.PidFile.{allocate}
use libservice.PidFile.Exclusion.{Holds, allocate-Holds}
use libservice.PidFile.World.{opened_as, succeeded}

-- `takes t p q`, a parameter of the file system: what `remove_all` takes away at the path `p`, with all
-- that is below it, is or has in it the file of the path `q`.
module _ (env : Env) (takes : Trace → Text → Text → Bool) where
  -- The descriptor is open on the file of that path that this process created.
  abbrev is_created : Text → ℕ → Trace → Bool
  is_created path fd [] = false
  is_created path fd (open_file create_excl p ∷ t) =
      let before = is_created path fd t in
      (text_eq p path && opened_as (env.opens t create_excl p) fd) || before
  is_created path fd (close_fd c ∷ t) = let before = is_created path fd t in not (c == fd) && before
  is_created path fd (unlink p ∷ t) = false
  is_created path fd (rename p q ∷ t) = false
  is_created path fd (remove_all p ∷ t) =
      let before = is_created path fd t in not (takes t p path) && before
  is_created path fd (_ ∷ t) = is_created path fd t

  -- The process holds its lock.
  abbrev is_locked : Text → ℕ → Trace → Bool
  is_locked path fd [] = false
  is_locked path fd (lock_fd c ∷ t) =
      let before = is_locked path fd t in
      (c == fd && (succeeded (env.locks t c) && is_created path fd t)) || before
  is_locked path fd (close_fd c ∷ t) = false
  is_locked path fd (unlink p ∷ t) = false
  is_locked path fd (rename p q ∷ t) = false
  is_locked path fd (remove_all p ∷ t) =
      let before = is_locked path fd t in not (takes t p path) && before
  is_locked path fd (_ ∷ t) = is_locked path fd t

  -- The pid file is ours: created, locked, with our process id written to it, and since then no
  -- descriptor was closed, nothing was renamed, and the file was not removed.
  abbrev pub is_held : Text → Trace → Bool
  is_held path [] = false
  is_held path (write_pid fd pid ∷ t) =
      let before = is_held path t in (eq_ℤ pid (env.getpid t) && is_locked path fd t) || before
  is_held path (close_fd c ∷ t) = false
  is_held path (unlink p ∷ t) = false
  is_held path (rename p q ∷ t) = false
  is_held path (remove_all p ∷ t) = let before = is_held path t in not (takes t p path) && before
  is_held path (_ ∷ t) = is_held path t

  eq_ℤ_self : (a : ℤ) → eq_ℤ a a ≡ true
  eq_ℤ_self (pos n) = ground arith
  eq_ℤ_self (negsuc n) = ground arith

  Holds-is_held : (path : Text) (t : Trace) → Holds env path t → is_held path t ≡ true
  Holds-is_held path
        (set_cloexec fd
          ∷ (write_pid a pid ∷ (fdopen b ∷ (lock_fd c ∷ (open_file create_excl p ∷ before)))))
        holds =
      ground (arith, holds, text_eq_self path, eq_ℤ_self pid)
  Holds-is_held path _ holds = absurd holds

  pub allocate_held :
      (path : Text) (h : Trace) → Returns (λ u t. is_held path t ≡ true) (allocate env path h)
  allocate_held path h =
      Returns-weaken (allocate env path h) (allocate-Holds env path h)
        (λ u t holds. Holds-is_held path t holds)
