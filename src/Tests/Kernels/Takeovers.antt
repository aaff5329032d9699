-- ===== src/Tests/Kernels/Takeovers.antt =====
-- A pid file that is created and not yet written, and an instance that takes it.
use libservice.Prelude.{ℕ, ◌<◌, ◌≤◌, some, none, [], ◌∷◌, ◌++◌, ◌≡◌, refl, arith, length}
use libservice.Os.{create_excl, open_file, unlink, close_fd, lock_fd, Trace, Completes}
use libservice.PidFile.{allocate}
use libservice.PidFile.World.{History, env_of, Owns}
use libservice.PidFile.Takeover.{Granted, allocate-Unwritten}
use libservice.Tests.Environments.{calm, pid_path}
use libservice.Tests.Kernels.{
  named, describes, holder, kernel, posix, file_at-named, by, created, new_fd,
}

-- A file is named by a length that the history had before.
named-lt : (g : History) (f : ℕ) → named g ≡ some f → f < length g
unfolding named
named-lt [] f e = ground arith
named-lt ((q, open_file create_excl p) ∷ g) f e = ground (arith, e, named-lt g f)
named-lt ((q, unlink p) ∷ g) f e = ground (arith, e, named-lt g f)
named-lt ((q, c) ∷ g) f e = ground (arith, named-lt g f e)

describes-lt : (r fd : ℕ) (g : History) (f : ℕ) → describes r fd g ≡ some f → f < length g
unfolding describes
describes-lt r fd [] f e = ground arith
describes-lt r fd ((q, open_file mode p) ∷ g) f e =
    ground (arith, e, describes-lt r fd g f, named-lt g f)
describes-lt r fd ((q, close_fd c) ∷ g) f e = ground (arith, e, describes-lt r fd g f)
describes-lt r fd ((q, c) ∷ g) f e = ground (arith, describes-lt r fd g f e)

-- Nobody has the lock of a file that does not exist yet.
holder_fresh : (g : History) (f : ℕ) → length g ≤ f → holder f g ≡ none
unfolding holder
holder_fresh [] f e = refl
holder_fresh ((q, lock_fd fd) ∷ g) f e = ground (arith, e, holder_fresh g f, describes-lt q fd g f)
holder_fresh ((q, close_fd fd) ∷ g) f e = ground (arith, e, holder_fresh g f)
holder_fresh ((q, c) ∷ g) f e = ground (arith, e, holder_fresh g f)

-- Process 8 runs while process 7 has created the file.
abbrev after_creation : Trace → History
after_creation t = by 8 t ++ by 7 created

granted : Granted calm kernel pid_path 8 after_creation (λ c t. refl)
unfolding named describes holder
granted = record {
  exists = λ g f e. ground (arith, e, file_at-named g);
  creates = λ g e. (new_fd g, ground (arith, e, file_at-named g));
  reopens = λ g f e. (new_fd g, ground (arith, e, file_at-named g));
  removes = λ g f e. ground (arith, e, file_at-named g);
  locks = λ g fd e. ground (arith, e, holder_fresh g (length g));
  directories = λ t p. refl;
  streams = λ t fd. refl;
}

allocate-Unwritten_example :
    Completes
      (λ u t. (new : ℕ) × Owns kernel pid_path 8 new (after_creation t))
      (allocate (env_of calm kernel 8 after_creation) pid_path [])
allocate-Unwritten_example =
    allocate-Unwritten calm kernel pid_path 8 after_creation (λ c t. refl) posix granted 1 []
      (unfold named in refl, refl)
