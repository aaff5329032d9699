-- ===== src/Ctrl/Client.antt =====
-- service/detail/ctrlclient.hpp, `CtrlClient::command`: one command, and what its reply means.
use libservice.Prelude.{Text, lit, Option, none, some, List, [], ◌∷◌, ◌++◌, if◌then◌else◌, is_empty}
use libservice.Ctrl.{Strings, getline, newline, end_of_block}

-- The answer to the caller: lines, the exception with the name of the client and the server's
-- message, or the exception of a broken connection.
pub data Answer : Type 0 where
  lines : List Text → Answer
  command_error : Text → Text → Answer
  connection_error : Answer

-- What is sent.
abbrev pub request : Text → Text
request command = command ++ newline ∷ []

-- `substr(7)`.
abbrev pub drop_7 : Text → Text
drop_7 (a ∷ b ∷ c ∷ d ∷ e ∷ f ∷ g ∷ s) = s
drop_7 s = []

-- `lines.pop_back()` when the last line is empty.
unfoldable pub drop_last_empty : List Text → List Text
drop_last_empty [] = []
drop_last_empty (l ∷ []) = if is_empty l then [] else l ∷ []
drop_last_empty (l ∷ m ∷ ms) = l ∷ drop_last_empty (m ∷ ms)

unfoldable pub interpret : Strings → Text → List Text → Answer
interpret lib name [] = lines []
interpret lib name (l ∷ ls) =
    if lib.starts_with l (lit "error: ")
    then command_error name (drop_7 l)
    else lines (drop_last_empty (l ∷ ls))

-- `read_until` fills the buffer, or throws; the reply is taken off the buffer's front.
unfoldable pub command_reply : Strings → Text → Option Text → Answer × Text
command_reply lib name none = (connection_error, [])
command_reply lib name (some buffer) =
    let (response, rest) = getline end_of_block buffer in
    (interpret lib name (lib.split_lines response), rest)
