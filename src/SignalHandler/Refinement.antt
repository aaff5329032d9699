-- ===== src/SignalHandler/Refinement.antt =====
-- service/detail/signalhandler.{hpp,cpp}: the termination of a service as its processes see it, without
-- slots, counters and events.
use libservice.Prelude.{
  ℕ, Bool, true, false, ◌||◌, List, [], ◌∷◌, ◌++◌, ◌==◌, ◌≡◌, ◌≢◌, refl, arith, Bool-cases, inl,
  inr, All, if◌then◌else◌,
}
use libservice.Terminator
use libservice.Terminator.{named}
use libservice.Terminator.Slots.{add_lem, remove_same}
use libservice.SignalHandler.{
  Shared, Local, Handler, Event, process, terminate, global_terminate, schedule_log_rotate, start,
  stop, start_signals, start_accept, stop_accept, at_fork,
}
use libservice.SignalHandler.Termination.{
  has_terminating, is_global, process_terminated, poll-Flagged,
}
use libservice.SignalHandler.Main.{All_head, All-replace}
use libservice.SignalHandler.System.{
  System, handler, Act, processes, terminates, sets_global, rotates, starts, stops, act, Step, acts,
  forks, Reach, here, next,
}

-- The processes that end all by a terminate signal, and whether all are to end.
pub record View : Type 0 where
  pub ends_all : ℕ → Bool
  pub ending : Bool

abbrev pub view : Shared → View
view s = record { ends_all = λ pid. Terminator.find pid s.terminator; ending = s.terminated }

abbrev pub SameProcesses : View → View → Type 0
SameProcesses a b = (q : ℕ) → q ≢ 0 → b.ends_all q ≡ a.ends_all q

-- Why a step may end all: a terminate signal came to the process with this id, or the service asked.
pub data Cause : Type 0 where
  quiet : Cause
  signalled : ℕ → Cause
  asked : Cause

-- The promise for one step, and for steps one after the other, newest first, each with its cause.
-- Without a cause nothing happens, or one process joins those that end all. A terminate signal to one
-- of those ends all, to another process nothing. All are to end when the service asked. Nobody leaves,
-- and an end that came stays.
pub data Moves (a b : View) : Cause → Type 0 where
  idles : SameProcesses a b → b.ending ≡ a.ending → Moves a b quiet
  joins :
      (pid : ℕ)
      → ((q : ℕ) → q ≢ 0 → b.ends_all q ≡ (q == pid) || a.ends_all q)
      → b.ending ≡ a.ending
      → Moves a b quiet
  signals :
      (pid : ℕ)
      → a.ends_all pid ≡ true
      → SameProcesses a b
      → b.ending ≡ true
      → Moves a b (signalled pid)
  passes :
      (pid : ℕ)
      → a.ends_all pid ≡ false
      → SameProcesses a b
      → b.ending ≡ a.ending
      → Moves a b (signalled pid)
  asks : SameProcesses a b → b.ending ≡ true → Moves a b asked

pub data MovesTo (a : View) : List Cause → View → Type 0 where
  done : MovesTo a [] a
  go_on :
      {b c : View} {cause : Cause} {before : List Cause}
      → MovesTo a before b
      → Moves b c cause
      → MovesTo a (cause ∷ before) c

-- The cause in an act of a process, in a step and in each of several: a terminate signal among the
-- events that the process handles, or the service's request.
abbrev pub cause_by : ℕ → Act → Cause
cause_by pid (processes es) = if has_terminating es then signalled pid else quiet
cause_by pid terminates = asked
cause_by pid _ = quiet

abbrev pub cause_in : {s t : System} → Step s t → Cause
cause_in (acts before after l a p q r) = cause_by l.pid a
cause_in (forks before after l pid nonzero n p q r) = quiet

abbrev pub causes : {s t : System} → Reach s t → List Cause
causes here = []
causes (next r st) = cause_in st ∷ causes r

process-table :
    (es : List Event) (h : Handler) → (process es h).handler.shared.terminator ≡ h.shared.terminator
unfolding process
process-table es h = ground (arith, poll-Flagged es h)

processes-Moves :
    (es : List Event) (h : Handler)
    → Moves
        (view h.shared)
        (view (process es h).handler.shared)
        (cause_by h.local.pid (processes es))
processes-Moves es h = elim (Bool-cases (has_terminating es)) [
  | inl ending ↦ rw ending (elim (Bool-cases (is_global h)) [
    | inl listed ↦ signals h.local.pid listed same (ground (arith, process_terminated es h))
    | inr other ↦ passes h.local.pid other same (ground (arith, process_terminated es h))
  ])
  | inr calm ↦ rw calm (idles same (ground (arith, process_terminated es h)))
]
  where
    same : SameProcesses (view h.shared) (view (process es h).handler.shared)
    same q n = rw (process-table es h) refl

add-Moves :
    (pid : ℕ) (h : Handler)
    → h.local.pid ≢ 0
    → Moves (view h.shared) (view (global_terminate true pid h).shared) quiet
unfolding global_terminate
add-Moves pid h own =
    let self : ℕ = h.local.pid in
    elim (Bool-cases (Terminator.add self pid h.shared.terminator).1) [
      | inl listed ↦
          joins (named self pid)
            (λ q n. ground (arith, listed, (add_lem self pid q h.shared.terminator own n).1)) refl
      | inr absent ↦
          idles (λ q n. ground (arith, absent, (add_lem self pid q h.shared.terminator own n).1))
            refl
    ]

act-Moves :
    (a : Act) (h : Handler)
    → h.local.pid ≢ 0
    → Moves (view h.shared) (view (act a h).shared) (cause_by h.local.pid a)
unfolding act terminate global_terminate schedule_log_rotate start stop start_signals start_accept
    stop_accept
act-Moves (processes es) h own = processes-Moves es h
act-Moves terminates h own = asks (λ q n. refl) refl
act-Moves (sets_global true pid) h own = add-Moves pid h own
act-Moves (sets_global false pid) h own =
    idles (λ q n. rw (remove_same h.local.pid pid h.shared.terminator) refl) refl
act-Moves rotates h own = idles (λ q n. refl) refl
act-Moves starts h own = idles (λ q n. ground arith) (ground arith)
act-Moves stops h own = idles (λ q n. ground arith) (ground arith)

-- No process has the id 0.
abbrev pub IsNumbered : Local → Type 0
IsNumbered l = l.pid ≢ 0

act-pid : (a : Act) (h : Handler) → (act a h).local.pid ≡ h.local.pid
unfolding act terminate global_terminate schedule_log_rotate start stop start_signals start_accept
    stop_accept process
act-pid (processes es) h = ground (arith, poll-Flagged es h)
act-pid (sets_global true pid) h = ground arith
act-pid (sets_global false pid) h = ground arith
act-pid a h = ground arith

Step-Moves :
    {s t : System} (st : Step s t)
    → All IsNumbered s.processes
    → Moves (view s.shared) (view t.shared) (cause_in st) × All IsNumbered t.processes
unfolding at_fork stop_accept
Step-Moves {s} {t} (acts before after l a p q r) h =
    let old : All IsNumbered (before ++ (l ∷ after)) = rw p at h in
    let own : l.pid ≢ 0 = All_head IsNumbered before after l old in
    (
      rw q (act-Moves a (handler s.shared l) own),
      rw r (
          All-replace IsNumbered before after _ l old
            (λ rest. (rw (act-pid a (handler s.shared l)) own, rest))),
    )
Step-Moves {s} {t} (forks before after l pid nonzero n p q r) h =
    let old : All IsNumbered (before ++ (l ∷ after)) = rw p at h in
    (
      rw q (idles (λ q n. refl) refl),
      rw r (
          All-replace IsNumbered before after _ l old
            (λ rest. (All_head IsNumbered before after l old, (ground arith, rest)))),
    )

Reach-Moves :
    {s t : System} (r : Reach s t)
    → All IsNumbered s.processes
    → MovesTo (view s.shared) (causes r) (view t.shared) × All IsNumbered t.processes
Reach-Moves here h = (done, h)
Reach-Moves (next r st) h =
    let before = Reach-Moves r h in
    let now = Step-Moves st before.1 in (go_on before.0 now.0, now.1)

-- Whatever the processes do, and however they fork, none of them with the id 0, what they share moves as
-- promised: no process leaves those that end all; a step in which such a process handles a terminate
-- signal, or the service asks for it, ends all; no other step does, also none in which another process
-- handles a terminate signal; and the end of all stays.
pub Reach-MovesTo :
    {s t : System} (r : Reach s t)
    → All IsNumbered s.processes
    → MovesTo (view s.shared) (causes r) (view t.shared)
Reach-MovesTo r h = (Reach-Moves r h).0
