-- ===== src/SignalHandler/Waits.antt =====
-- service/detail/signalhandler.cpp: how many waits for a signal are in flight.
use libservice.Prelude.{ℕ, suc, ◌+◌, ◌<◌, none, some, List, [], ◌∷◌, ◌≡◌, arith}
use libservice.SignalHandler.{
  Handler, Event, signalled, accepted, posted, operation_aborted, other_error, run_event, poll,
}

-- How many waits ended by an abort, and by another error.
abbrev pub aborts : List Event → ℕ
aborts [] = 0
aborts (signalled (some operation_aborted) s ∷ es) = suc (aborts es)
aborts (_ ∷ es) = aborts es

abbrev pub errors : List Event → ℕ
errors [] = 0
errors (signalled (some other_error) s ∷ es) = suc (errors es)
errors (_ ∷ es) = errors es

-- A wait that ends with a signal is started again, one that is aborted is not; each wait that ends
-- with another error is started twice, so that the waits in flight grow by one with every such error.
pub poll_waits :
    (es : List Event) (h : Handler)
    → aborts es < h.local.waits
    → (poll es h).0.local.waits + aborts es ≡ h.local.waits + errors es
unfolding poll run_event
poll_waits [] h room = ground arith
poll_waits (signalled none s ∷ es) h room =
    ground (arith, poll_waits es (run_event (signalled none s) h).0)
poll_waits (signalled (some operation_aborted) s ∷ es) h room =
    ground (arith, poll_waits es (run_event (signalled (some operation_aborted) s) h).0)
poll_waits (signalled (some other_error) s ∷ es) h room =
    ground (arith, poll_waits es (run_event (signalled (some other_error) s) h).0)
poll_waits (accepted e ∷ es) h room = ground (arith, poll_waits es (run_event (accepted e) h).0)
poll_waits (posted s ∷ es) h room = ground (arith, poll_waits es (run_event (posted s) h).0)
