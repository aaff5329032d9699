-- ===== src/Running.antt =====
-- service/runninguntilsignalled.cpp: a runnable that stops at an interrupt.
pub mod Stopping
use libservice.Prelude.{
  ℕ, suc, ◌+◌, ◌-◌, Bool, true, false, not, Option, none, some, List, [], ◌∷◌, ◌==◌, if◌then◌else◌,
}
use libservice.SignalHandler.{ErrorCode, operation_aborted, other_error, sigint}

-- `Detail`: the flag, and the asynchronous waits in flight.
pub record Running : Type 0 where
  pub terminated : Bool
  pub waits : ℕ

-- A wait that is over: its error, if any, and the signal.
pub record Ended : Type 0 where
  pub error : Option ErrorCode
  pub signo : ℕ

unfoldable pub start_signals : Running → Running
start_signals r = record r { waits = r.waits + 1 }

-- The constructor.
unfoldable pub construct : Running
unfolding start_signals
construct = start_signals (record { terminated = false; waits = 0 })

-- `signal` once an error has been looked at.
unfoldable pub handle_signal : ℕ → Running → Running
unfolding start_signals
handle_signal signo r =
    if signo == 0
    then start_signals r
    else start_signals (if signo == sigint then record r { terminated = true } else r)

-- `signal`: as in the signal handler of a service, an error other than an abort starts a wait and goes
-- on.
unfoldable pub signal : Ended → Running → Running
unfolding handle_signal start_signals
signal e r = elim e.error [
  | none ↦ handle_signal e.signo r
  | some c ↦ elim c [
    | operation_aborted ↦ r
    | other_error ↦ handle_signal e.signo (start_signals r)
  ]
]

-- `ios.poll()`: each wait that is over, in order.
unfoldable pub poll : List Ended → Running → Running
unfolding signal
poll [] r = r
poll (e ∷ es) r = poll es (signal e (record r { waits = r.waits - 1 }))

-- `process`, which is `isRunning`.
unfoldable pub is_running : List Ended → Running → Running × Bool
unfolding poll
is_running es r = let polled = poll es r in (polled, not polled.terminated)

unfoldable pub stop : Running → Running
stop r = record r { terminated = true }

-- A program that asks again and again: the answers.
unfoldable pub answers : List (List Ended) → Running → List Bool
unfolding is_running
answers [] r = []
answers (es ∷ polls) r = let now = is_running es r in now.1 ∷ answers polls now.0
