-- ===== src/Tests/Clients.antt =====
-- Clients, sessions, pipes and runnables at concrete inputs.
use libservice.Prelude.{
  ℕ, suc, Text, lit, true, false, none, List, [], ◌∷◌, ◌++◌, ◌≡◌, refl, text_eq, ◌==◌,
  if◌then◌else◌,
}
use libservice.Os.{Env, read_packet, write_packet, Trace, Answer, ok, fail, ◌>>=◌}
use libservice.SignalHandler.{sigint}
use libservice.Running.{Ended, answers, construct}
use libservice.Running.Stopping.{answers_until}
use libservice.Ctrl.Client.{lines, connection_error}
use libservice.NetClient.{Peer}
use libservice.CtrlTool.{interact}
use libservice.CtrlTool.Sessions.{interact-talk}
use libservice.PipeNotifier.Packets.{rest_of}
use libservice.Tests.Environments.{calm}

abbrev interrupt : Ended
interrupt = record { error = none; signo = sigint }

abbrev hangup : Ended
hangup = record { error = none; signo = 1 }

answers_until_example :
    answers ((hangup ∷ []) ∷ (interrupt ∷ []) ∷ [] ∷ []) construct ≡ true ∷ false ∷ false ∷ []
answers_until_example = answers_until ((hangup ∷ []) ∷ []) ([] ∷ []) (interrupt ∷ []) refl refl

-- A peer that knows two commands, and hangs up at the second.
abbrev hanging_up : Peer ℕ
hanging_up command c =
    if text_eq command (lit "stat")
    then (lines (lit "well" ∷ []), suc c)
    else (connection_error, suc c)

interact-talk_example :
    let s =
      interact
        (lit "tool")
        (lit "closed")
        hanging_up
        []
        (lit "stat" ∷ [] ∷ lit "quit" ∷ lit "stat" ∷ [])
        0 in
    (s.peer ≡ 2) × (s.code ≡ 1)
interact-talk_example =
    interact-talk (lit "tool") (lit "closed") hanging_up []
      (lit "stat" ∷ [] ∷ lit "quit" ∷ lit "stat" ∷ []) 0

-- A pipe between the descriptors 6 and 7 that keeps packets in their order.
pending : Trace → List Text
pending [] = []
pending (write_packet fd s ∷ t) =
    let before = pending t in if fd == 7 then before ++ s ∷ [] else before
pending (read_packet fd ∷ t) = let before = pending t in if fd == 6 then rest_of before else before
pending (_ ∷ t) = pending t

abbrev oldest : List Text → Answer Text
oldest [] = fail 11
oldest (s ∷ ss) = ok s

abbrev piped : Env
piped = record calm { receives = λ t fd. oldest (pending t); sends = λ t fd s. ok tt }
