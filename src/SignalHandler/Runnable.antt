-- ===== src/SignalHandler/Runnable.antt =====
-- service/service.cpp, `stop`, `isRunning`, `globalTerminate` and `registerSignal` of a service that
-- has started, and the functions that it may leave as they are.
use libservice.Prelude.{
  ℕ, suc, Bool, true, false, not, ◌||◌, ◌&&◌, List, [], ◌∷◌, ◌++◌, ◌≡◌, ◌∙◌, refl, arith, length,
  replicate,
}
use libservice.SignalHandler
use libservice.SignalHandler.{Handler, Event, posted, process, terminate, must_terminate}
use libservice.SignalHandler.Termination.{has_terminating, process_terminated}

unfoldable pub stop : Handler → Handler
stop h = terminate h

unfoldable pub is_running : List Event → Handler → Handler × Bool
is_running es h = let p = process es h in (p.handler, not p.terminated)

unfoldable pub global_terminate : Bool → ℕ → Handler → Handler
global_terminate value pid h = SignalHandler.global_terminate value pid h

-- `registerSignal` leaves an event for the next poll.
unfoldable pub register_signal : ℕ → List Event → List Event
register_signal signo es = es ++ posted signo ∷ []

-- A service that asks again and again, with what each poll finds: the answers.
unfoldable pub answers : List (List Event) → Handler → List Bool
unfolding is_running
answers [] h = []
answers (es ∷ polls) h = let now = is_running es h in now.1 ∷ answers polls now.0

-- The answers that there should be, for a service that is told to end or is not.
abbrev expected : Bool → List (List Event) → List Bool
expected ending [] = []
expected ending (es ∷ polls) =
    not (ending || has_terminating es) ∷ expected (ending || has_terminating es) polls

answers-expected :
    (polls : List (List Event)) (h : Handler) → answers polls h ≡ expected (must_terminate h) polls
unfolding answers is_running process
answers-expected [] h = refl
answers-expected (es ∷ polls) h =
    ground (arith, answers-expected polls (process es h).handler, (process_terminated es h).0)

expected_ended : (polls : List (List Event)) → expected true polls ≡ replicate (length polls) false
expected_ended [] = refl
expected_ended (es ∷ polls) = ground (arith, expected_ended polls)

-- No poll finds a terminate signal.
abbrev pub all_calm : List (List Event) → Bool
all_calm [] = true
all_calm (es ∷ polls) = not (has_terminating es) && all_calm polls

expected_until :
    (before after : List (List Event)) (es : List Event)
    → all_calm before ≡ true
    → has_terminating es ≡ true
    → expected false (before ++ es ∷ after)
      ≡ replicate (length before) true ++ replicate (suc (length after)) false
expected_until [] after es calm ends = ground (arith, expected_ended after)
expected_until (bs ∷ before) after es calm ends = ground (arith, expected_until before after es)

-- A service that nobody told to end and that asks in turn is running until the first poll that finds a
-- terminate signal, and not at that poll and at every later one, whatever those find; after `stop` it
-- is not running at any. No other process writes to the shared flag between the polls.
pub is_running_until :
    (before after : List (List Event)) (es : List Event) (h : Handler)
    → must_terminate h ≡ false
    → all_calm before ≡ true
    → has_terminating es ≡ true
    → (answers (before ++ es ∷ after) h
        ≡ replicate (length before) true ++ replicate (suc (length after)) false)
      × (answers after (stop h) ≡ replicate (length after) false)
unfolding stop terminate
is_running_until before after es h running calm ends = (
  answers-expected (before ++ es ∷ after) h ∙ rw running (expected_until before after es calm ends),
  answers-expected after (stop h) ∙ expected_ended after,
)
