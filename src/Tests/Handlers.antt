-- ===== src/Tests/Handlers.antt =====
-- The signal handler of service/detail/signalhandler.{hpp,cpp} at concrete inputs.
use libservice.Prelude.{
  ℕ, ◌+◌, ◌≤◌, false, true, none, some, [], ◌∷◌, ◌≡◌, refl, arith, lit, All, ◌==◌,
}
use libservice.Allocator.{Object, place}
use libservice.Allocator.Layout.{place_fits}
use libservice.Terminator.{Table, add, find, find_slot, fill}
use libservice.SignalHandler.{
  Handler, Local, Shared, signalled, other_error, process, poll, global_terminate,
}
use libservice.SignalHandler.Termination.{global_terminate_sticks}
use libservice.SignalHandler.LogRotation.{rotations, process_rotates}
use libservice.SignalHandler.Waits.{poll_waits}
use libservice.SignalHandler.Runnable.{answers, stop, is_running_until}
use libservice.SignalHandler.System.{
  System, processes, acts, forks, here, next, handler, act, forked, terminate_reaches_all,
}
use libservice.SignalHandler.Refinement.{Cause, view, MovesTo, Reach-MovesTo}
use libservice.SignalHandler.Main.{IsMainOnly, Reach-IsMainOnly}

abbrev mutex : Object
mutex = record { align = 8; size = 40; number = 1 }

place_fits_example : (place mutex).stat_event + 8 ≤ 4096
place_fits_example = (place_fits mutex (omega arith) (omega arith)).5

abbrev table : Table
table = 7 ∷ 0 ∷ 0 ∷ []

abbrev shared : Shared
shared = record { terminator = table; terminated = false; log_rotate_event = 5; stat_event = 2 }

abbrev local : ℕ → Local
local pid = record {
  pid = pid;
  main_pid = 7;
  this_terminated = false;
  last_log_rotate_event = 3;
  last_stat_event = 2;
  signals = [];
  user_registered_signals = [];
  waits = 1;
  ctrl_path = some (lit "/run/ctrl");
  ctrl_is_open = pid == 7;
  accepts = 0;
}

abbrev main_handler : Handler
main_handler = handler shared (local 7)

abbrev child_handler : Handler
child_handler = handler shared (local 8)

global_terminate_sticks_example :
    (process
      (signalled none 15 ∷ [])
      (global_terminate false 0 (global_terminate true 0 child_handler))).handler.shared.terminated
    ≡ true
global_terminate_sticks_example =
    global_terminate_sticks child_handler (signalled none 15 ∷ []) (λ e. absurd (omega (arith, e)))
      (unfold add find find_slot fill in refl) refl

process_rotates_example : rotations (process (signalled none 1 ∷ []) child_handler).calls ≡ 1
process_rotates_example =
    (process_rotates (signalled none 1 ∷ []) child_handler 2 (omega arith) (omega arith) refl).0

poll_waits_example :
    (poll (signalled (some other_error) 15 ∷ signalled none 1 ∷ []) main_handler).0.local.waits + 0
    ≡ 2
poll_waits_example =
    poll_waits (signalled (some other_error) 15 ∷ signalled none 1 ∷ []) main_handler (omega arith)

abbrev pair : System
pair = record { shared = shared; processes = local 7 ∷ local 8 ∷ [] }

abbrev ended : System
ended = record {
  shared = (act (processes (signalled none 15 ∷ [])) main_handler).shared;
  processes = (act (processes (signalled none 15 ∷ [])) main_handler).local ∷ local 8 ∷ [];
}

terminate_reaches_all_example : (process [] (handler ended.shared (local 8))).terminated ≡ true
terminate_reaches_all_example =
    terminate_reaches_all pair ended ended (local 7) (local 8) (signalled none 15 ∷ []) []
      (unfold find find_slot in refl) refl refl here

abbrev three : System
three = record {
  shared = shared;
  processes = local 7 ∷ local 8 ∷ (forked child_handler 9).local ∷ [];
}

Reach-IsMainOnly_example : All IsMainOnly three.processes
Reach-IsMainOnly_example =
    Reach-IsMainOnly {s = pair} {t = three}
      (next here (
        forks (local 7 ∷ []) [] (local 8) 9 (λ e. absurd (omega (arith, e)))
          (λ e. absurd (omega (arith, e))) refl refl refl))
      ((λ e. refl), ((λ e. cc), tt))

Reach-MovesTo_example : MovesTo (view pair.shared) (Cause.signalled 7 ∷ []) (view ended.shared)
Reach-MovesTo_example =
    Reach-MovesTo {s = pair} {t = ended}
      (next here
        (acts [] (local 8 ∷ []) (local 7) (processes (signalled none 15 ∷ [])) refl refl refl))
      ((λ e. absurd (omega (arith, e))), ((λ e. absurd (omega (arith, e))), tt))

-- The service of the main process: one poll finds nothing, the next a terminate signal.
is_running_until_example :
    (answers ([] ∷ (signalled none 15 ∷ []) ∷ [] ∷ []) main_handler ≡ true ∷ false ∷ false ∷ [])
    × (answers ([] ∷ []) (stop main_handler) ≡ false ∷ [])
is_running_until_example =
    is_running_until ([] ∷ []) ([] ∷ []) (signalled none 15 ∷ []) main_handler refl refl refl
