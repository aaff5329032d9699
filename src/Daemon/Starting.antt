-- ===== src/Daemon/Starting.antt =====
-- service/service.cpp: going to the background does not start the service.
use libservice.Prelude.{ℕ, zero, suc, Bool, true, false, ◌∷◌, refl, arith}
use libservice.Os.{Env, Trace, read_pipe, close_fd, fork, setsid, Same-bind}
use libservice.Program.Starting.{starts_in, NoStart}
use libservice.Daemon.{
  Globals, wait_for_child, wait_and_exit, become_daemon, intermediate, starter, leave_directory,
  open_pipe, run_in_background,
}

module _ (env : Env) where
  wait_for_child-NoStart : (fuel fd : ℕ) (h : Trace) → NoStart h (wait_for_child env fuel fd h)
  unfolding wait_for_child
  wait_for_child-NoStart zero fd h = refl
  wait_for_child-NoStart (suc fuel) fd h =
      ground (arith, wait_for_child-NoStart fuel fd (read_pipe fd ∷ h))

  wait_and_exit-NoStart : (fuel fd : ℕ) (h : Trace) → NoStart h (wait_and_exit env fuel fd h)
  unfolding wait_and_exit
  wait_and_exit-NoStart fuel fd h = ground (arith, wait_for_child-NoStart fuel fd h)

  intermediate-NoStart :
      (fuel : ℕ) (g : Globals) (a b : ℕ × ℕ) (h : Trace) → NoStart h (intermediate env fuel g a b h)
  unfolding intermediate become_daemon
  intermediate-NoStart fuel g a b h =
      ground (arith, wait_and_exit-NoStart fuel b.0 (close_fd b.1 ∷ (fork ∷ (setsid ∷ h))))

  starter-NoStart :
      (fuel : ℕ) (g : Globals) (a b : ℕ × ℕ) (h : Trace) → NoStart h (starter env fuel g a b h)
  unfolding starter
  starter-NoStart fuel g a b h = ground (
    arith,
    wait_and_exit-NoStart fuel a.0 (close_fd b.1 ∷ (close_fd b.0 ∷ (close_fd a.1 ∷ (fork ∷ h)))),
    intermediate-NoStart fuel g a b (fork ∷ h),
  )

  leave_directory-NoStart : (nochdir : Bool) (h : Trace) → NoStart h (leave_directory env nochdir h)
  unfolding leave_directory
  leave_directory-NoStart true h = refl
  leave_directory-NoStart false h = refl

  open_pipe-NoStart : (h : Trace) → NoStart h (open_pipe env h)
  unfolding open_pipe
  open_pipe-NoStart h = ground arith

  pub run_in_background-NoStart :
      (fuel : ℕ) (nochdir : Bool) (g : Globals) (h : Trace)
      → NoStart h (run_in_background env fuel nochdir g h)
  unfolding run_in_background
  run_in_background-NoStart fuel nochdir g h =
      Same-bind starts_in (leave_directory env nochdir) _ h (leave_directory-NoStart nochdir h)
        (λ u t. Same-bind starts_in (open_pipe env) _ t (open_pipe-NoStart t) (λ a w.
          Same-bind starts_in (open_pipe env) _ w (open_pipe-NoStart w)
            (λ b x. starter-NoStart fuel g a b x)))
