-- ===== src/SignalHandler/Termination.antt =====
-- service/detail/signalhandler.cpp: who a terminate signal ends.
use libservice.Prelude.{
  ℕ, Text, Option, refl, Bool, true, false, ◌||◌, ◌&&◌, some, List, [], ◌∷◌, ◌==◌, ◌≡◌, ◌≢◌, arith,
}
use libservice.Terminator
use libservice.Terminator.{Table}
use libservice.Terminator.Slots.{find-remove-add}
use libservice.SignalHandler.{
  init, start, start_signals, start_accept, Handler, Event, signalled, accepted, posted,
  operation_aborted, sigterm, sigint, run_event, poll, process, must_terminate, global_terminate,
}

-- The event carries a signal that ends the process, not the abort of a wait.
abbrev pub is_terminating : Event → Bool
is_terminating (signalled (some operation_aborted) signo) = false
is_terminating (signalled e signo) = signo == sigterm || signo == sigint
is_terminating (accepted e) = false
is_terminating (posted signo) = false

abbrev pub has_terminating : List Event → Bool
has_terminating [] = false
has_terminating (e ∷ es) = is_terminating e || has_terminating es

-- The process stands in the table of those that end all.
abbrev pub is_global : Handler → Bool
is_global h = Terminator.find h.local.pid h.shared.terminator

-- The flags after events `b` of which tell the process to end; its id and the table stay.
pub record Flagged (b : Bool) (h g : Handler) : Type 0 where
  pub own : g.local.this_terminated ≡ h.local.this_terminated || b
  pub global : g.shared.terminated ≡ h.shared.terminated || (b && is_global h)
  pub same_table : g.shared.terminator ≡ h.shared.terminator
  pub same_pid : g.local.pid ≡ h.local.pid

run_event-Flagged : (e : Event) (h : Handler) → Flagged (is_terminating e) h (run_event e h).0
unfolding run_event
run_event-Flagged e h = ground arith

pub poll-Flagged : (es : List Event) (h : Handler) → Flagged (has_terminating es) h (poll es h).0
unfolding poll
poll-Flagged [] h = ground arith
poll-Flagged (e ∷ es) h = ground (arith, run_event-Flagged e h, poll-Flagged es (run_event e h).0)

-- `process` answers true exactly when a terminate signal is among the events or a flag was up
-- before; it raises the flag of all processes exactly when its own stands in the table.
pub process_terminated :
    (es : List Event) (h : Handler)
    → ((process es h).terminated ≡ (must_terminate h || has_terminating es))
      × ((process es h).handler.shared.terminated
          ≡ h.shared.terminated || (has_terminating es && is_global h))
unfolding process
process_terminated es h = ground (arith, poll-Flagged es h)

-- Taking a process off the table again, `globalTerminate(false)`, has no effect: once it was put
-- there, its terminate signal ends every process.
pub global_terminate_sticks :
    (h : Handler) (es : List Event)
    → h.local.pid ≢ 0
    → (Terminator.add h.local.pid 0 h.shared.terminator).1 ≡ true
    → has_terminating es ≡ true
    → (process es (global_terminate false 0 (global_terminate true 0 h))).handler.shared.terminated
      ≡ true
unfolding global_terminate
global_terminate_sticks h es own added ending =
    let pid : ℕ = h.local.pid in
    let g : Handler = global_terminate false 0 (global_terminate true 0 h) in
    ground
      (arith, process_terminated es g, find-remove-add pid pid 0 0 h.shared.terminator own added)

-- A new handler does not tell to end, and what `operator()` does before the service starts leaves that
-- as it is.
pub init_goes_on : (pid : ℕ) (path : Option Text) → must_terminate (init pid path) ≡ false
unfolding init
init_goes_on pid path = refl

pub start_goes_on :
    (h : Handler) → must_terminate (start (global_terminate true 0 h)) ≡ must_terminate h
unfolding start start_signals start_accept global_terminate
start_goes_on h = ground arith

pub process_goes_on :
    (es : List Event) (h : Handler)
    → must_terminate h ≡ false
    → has_terminating es ≡ false
    → (process es h).terminated ≡ false
process_goes_on es h going calm = ground (arith, process_terminated es h)
