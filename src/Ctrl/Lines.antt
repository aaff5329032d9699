-- ===== src/Ctrl/Lines.antt =====
-- service/detail/signalhandler.cpp and service/detail/ctrlclient.hpp: the lines of a reply as one text.
use mathlib.Core.List.{append_assoc}
use libservice.Prelude.{
  Text, lit, text_eq, Bool, true, false, not, ◌||◌, Option, none, some, List, [], ◌∷◌, ◌++◌, ◌≡◌,
  refl, ap, arith, All,
}
use libservice.Ctrl.{Strings, Without, Without-append, newline, end_of_block}
use libservice.SignalHandler.{Handler}
use libservice.Ctrl.Server.{command_error, bang, reply_text}
use libservice.Ctrl.Client.{Answer, command_reply}

-- Lines as the server writes them.
abbrev pub unlines : List Text → Text
unlines [] = []
unlines (l ∷ ls) = l ++ (newline ∷ unlines ls)

-- Lines that a reply can carry: no byte of a line is a newline or ends the block.
abbrev pub IsLine : Text → Type 0
IsLine l = Without newline l × Without end_of_block l

pub unlines-Without : (ls : List Text) → All IsLine ls → Without end_of_block (unlines ls)
unlines-Without [] h = tt
unlines-Without (l ∷ ls) h =
    Without-append end_of_block l (newline ∷ unlines ls) h.0.1 (refl, unlines-Without ls h.1)

-- The first word of a command that the connection hands to the service.
abbrev pub is_service_command : Text → Bool
is_service_command w = not (
    bang w
    || text_eq w (lit "logrotate")
    || text_eq w (lit "terminate")
    || text_eq w (lit "exit")
    || text_eq w (lit "help"))

-- The client's end of an exchange, where the connection brought a reply.
abbrev pub deliver : Strings → Text → Text → Option Text → Option (Answer × Text)
deliver lib name tail none = none
deliver lib name tail (some reply) = some (command_reply lib name (some (reply ++ tail)))

-- The line that reports an exception.
abbrev pub error_line : Text → Text
error_line what = lit "error: " ++ (what ++ lit " ")

pub IsLine-append : (s t : Text) → IsLine s → IsLine t → IsLine (s ++ t)
IsLine-append s t h k =
    (Without-append newline s t h.0 k.0, Without-append end_of_block s t h.1 k.1)

pub error_line-IsLine : (what : Text) → IsLine what → IsLine (error_line what)
error_line-IsLine what h =
    IsLine-append (lit "error: ") (what ++ lit " ") (ground arith)
      (IsLine-append what (lit " ") h (ground arith))

pub error_text :
    (what : Text) → lit "error: " ++ (what ++ lit " \n") ≡ unlines (error_line what ∷ [])
error_text what = rw (append_assoc what (lit " ") (newline ∷ []))

pub plain_text :
    (acts : Handler → Handler) (text : Text)
    → reply_text (record { acts = acts; text = text; thrown = none; answer = true }) ≡ text
unfolding reply_text
plain_text acts text = refl

pub error_reply :
    (acts : Handler → Handler) (text what : Text)
    → reply_text
        (record { acts = acts; text = text; thrown = some (command_error what); answer = false })
      ≡ text ++ unlines (error_line what ∷ [])
unfolding reply_text
error_reply acts text what = ap (◌++◌ text) (error_text what)
