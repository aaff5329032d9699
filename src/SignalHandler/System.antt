-- ===== src/SignalHandler/System.antt =====
-- service/detail/signalhandler.{hpp,cpp}: the processes of one service, over the shared memory that
-- `fork` leaves to all of them.
use libservice.Prelude.{ℕ, Bool, true, false, List, ◌∷◌, ◌++◌, ◌≡◌, ◌≢◌, arith}
use libservice.SignalHandler.{
  Shared, Local, Handler, Event, child, process, terminate, global_terminate, schedule_log_rotate,
  at_fork, start, stop,
}
use libservice.SignalHandler.Termination.{has_terminating, is_global, process_terminated}

pub record System : Type 0 where
  pub shared : Shared
  pub processes : List Local

abbrev pub handler : Shared → Local → Handler
handler s l = record { shared = s; local = l }

-- `fork`: the child has the parent's handler, with its own process id, and then runs `atFork`.
abbrev pub forked : Handler → ℕ → Handler
forked h pid = at_fork child (record h { local = record (h.local) { pid = pid } })

-- What one process may do between two operations of the others.
pub data Act : Type 0 where
  processes : List Event → Act
  terminates : Act
  sets_global : Bool → ℕ → Act
  rotates : Act
  starts stops : Act

unfoldable pub act : Act → Handler → Handler
act (processes es) h = (process es h).handler
act terminates h = terminate h
act (sets_global value pid) h = global_terminate value pid h
act rotates h = schedule_log_rotate h
act starts h = start h
act stops h = stop h

-- One process acts, or forks, while the others stand still.
pub data Step (s t : System) : Type 0 where
  acts :
      (before after : List Local) (l : Local) (a : Act)
      → s.processes ≡ before ++ (l ∷ after)
      → t.shared ≡ (act a (handler s.shared l)).shared
      → t.processes ≡ before ++ ((act a (handler s.shared l)).local ∷ after)
      → Step s t
  forks :
      (before after : List Local) (l : Local) (pid : ℕ)
      → pid ≢ 0
      → pid ≢ l.main_pid
      → s.processes ≡ before ++ (l ∷ after)
      → t.shared ≡ s.shared
      → t.processes ≡ before ++ (l ∷ (forked (handler s.shared l) pid).local ∷ after)
      → Step s t

pub data Reach (s : System) : System → Type 0 where
  here : Reach s s
  next : {t u : System} → Reach s t → Step t u → Reach s u

act_terminated :
    (a : Act) (h : Handler) → h.shared.terminated ≡ true → (act a h).shared.terminated ≡ true
unfolding act terminate global_terminate schedule_log_rotate start stop
act_terminated (processes es) h e = ground (arith, process_terminated es h)
act_terminated (sets_global true pid) h e = ground arith
act_terminated (sets_global false pid) h e = ground arith
act_terminated a h e = ground arith

Step-terminated :
    {s t : System} → Step s t → s.shared.terminated ≡ true → t.shared.terminated ≡ true
Step-terminated {s} {t} (acts before after l a p q r) e =
    rw q (act_terminated a (handler s.shared l) e)
Step-terminated (forks before after l pid nonzero n p q r) e = rw q e

Reach-terminated :
    {s t : System} → Reach s t → s.shared.terminated ≡ true → t.shared.terminated ≡ true
Reach-terminated here e = e
Reach-terminated (next r st) e = Step-terminated st (Reach-terminated r e)

-- A terminate signal to a process of the table ends all: from then on, whatever the processes do in
-- whatever order, every process that asks is told to terminate.
pub terminate_reaches_all :
    (s t u : System) (l m : Local) (es events : List Event)
    → is_global (handler s.shared l) ≡ true
    → has_terminating es ≡ true
    → t.shared ≡ (act (processes es) (handler s.shared l)).shared
    → Reach t u
    → (process events (handler u.shared m)).terminated ≡ true
unfolding act
terminate_reaches_all s t u l m es events listed ending e r =
    let raised : u.shared.terminated ≡ true =
      Reach-terminated r (rw e (ground (arith, process_terminated es (handler s.shared l)))) in
    ground (arith, process_terminated events (handler u.shared m))
