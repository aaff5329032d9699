-- ===== src/Running/Stopping.antt =====
-- service/runninguntilsignalled.cpp: when the runnable stops.
use libservice.Prelude.{
  suc, ◌-◌, Bool, true, false, not, ◌||◌, ◌&&◌, none, some, List, [], ◌∷◌, ◌++◌, ◌≡◌, ◌∙◌, refl,
  arith, ◌==◌, length, replicate,
}
use libservice.SignalHandler.{operation_aborted, other_error, sigint}
use libservice.Running.{
  Running, Ended, signal, handle_signal, start_signals, poll, is_running, stop, answers, construct,
}

-- An interrupt: the wait was not aborted and brings SIGINT.
abbrev pub is_interrupt : Ended → Bool
is_interrupt e = elim e.error [
  | none ↦ e.signo == sigint
  | some c ↦ elim c [ operation_aborted ↦ false | other_error ↦ e.signo == sigint ]
]

abbrev pub has_interrupt : List Ended → Bool
has_interrupt [] = false
has_interrupt (e ∷ es) = is_interrupt e || has_interrupt es

-- The answers that there should be: true until an interrupt comes, and false from then on.
abbrev pub expected : Bool → List (List Ended) → List Bool
expected running [] = []
expected running (es ∷ polls) =
    (running && not (has_interrupt es)) ∷ expected (running && not (has_interrupt es)) polls

signal_terminated :
    (e : Ended) (r : Running) → (signal e r).terminated ≡ (r.terminated || is_interrupt e)
unfolding signal handle_signal start_signals
signal_terminated e r = ground arith

poll_terminated :
    (es : List Ended) (r : Running) → (poll es r).terminated ≡ (r.terminated || has_interrupt es)
unfolding poll
poll_terminated [] r = ground arith
poll_terminated (e ∷ es) r =
    let next : Running = record r { waits = r.waits - 1 } in
    ground (arith, poll_terminated es (signal e next), signal_terminated e next)

answers-expected :
    (polls : List (List Ended)) (r : Running) → answers polls r ≡ expected (not r.terminated) polls
unfolding answers is_running
answers-expected [] r = refl
answers-expected (es ∷ polls) r =
    ground (arith, answers-expected polls (poll es r), poll_terminated es r)

expected_stopped :
    (polls : List (List Ended)) → expected false polls ≡ replicate (length polls) false
expected_stopped [] = refl
expected_stopped (es ∷ polls) = ground (arith, expected_stopped polls)

-- No poll finds an interrupt.
abbrev pub all_calm : List (List Ended) → Bool
all_calm [] = true
all_calm (es ∷ polls) = not (has_interrupt es) && all_calm polls

expected_until :
    (before after : List (List Ended)) (es : List Ended)
    → all_calm before ≡ true
    → has_interrupt es ≡ true
    → expected true (before ++ es ∷ after)
      ≡ replicate (length before) true ++ replicate (suc (length after)) false
expected_until [] after es calm stops = ground (arith, expected_stopped after)
expected_until (bs ∷ before) after es calm stops = ground (arith, expected_until before after es)

-- A program that asks in turn is told to go on until the first poll that finds an interrupt, and to
-- stop at that poll and at every later one, whatever those find.
pub answers_until :
    (before after : List (List Ended)) (es : List Ended)
    → all_calm before ≡ true
    → has_interrupt es ≡ true
    → answers (before ++ es ∷ after) construct
      ≡ replicate (length before) true ++ replicate (suc (length after)) false
unfolding construct start_signals
answers_until before after es calm stops =
    answers-expected (before ++ es ∷ after) construct ∙ expected_until before after es calm stops

-- `stop` has the same effect from the next question on.
answers-stop :
    (polls : List (List Ended)) (r : Running)
    → answers polls (stop r) ≡ replicate (length polls) false
unfolding stop
answers-stop polls r = answers-expected polls (stop r) ∙ expected_stopped polls
