-- ===== src/CtrlTool.antt =====
-- service/tools/ctrlclient.cpp and service/tools/netctrlclient.cpp: the command line tools that talk
-- to a service. They differ in the client that they open.
pub mod Sessions
pub mod Main
use libservice.Prelude.{
  ℕ, ℤ, pos, Text, lit, Bool, true, false, Option, none, some, List, [], ◌∷◌, ◌++◌, is_empty,
  if◌then◌else◌,
}
use libservice.Ctrl.Client.{Answer, lines, command_error, connection_error}
use libservice.NetClient.{Peer}

-- What the tool writes: a line of a reply, an error, a newline at the end of the input, and the
-- history.
pub data Written : Type 0 where
  reply_line error_text : Text → Written
  end_of_input : Written
  read_history write_history : Text → Written

-- How a tool ends, and what the peer has become.
pub record Session (C : Type 0) : Type 0 where
  pub written : List Written
  pub code : ℕ
  pub peer : C

abbrev pub reply_lines : List Text → List Written
reply_lines [] = []
reply_lines (l ∷ ls) = reply_line l ∷ reply_lines ls

-- `what()` of an exception: the name of the client and the server's message, or the text of a lost
-- connection, which is Asio's.
abbrev pub message : Text → Text → Text
message name what = name ++ (lit ": " ++ what)

abbrev pub writing : {C : Type 0} → List Written → Session C → Session C
writing out s = record s { written = out ++ s.written }

-- `write_history`, where there is a history file.
abbrev pub save_history : Text → List Written
save_history history = if is_empty history then [] else write_history history ∷ []

abbrev pub load_history : Text → List Written
load_history history = if is_empty history then [] else read_history history ∷ []

-- The client's constructor: a connection, or an exception with a text.
pub data Opened (C : Type 0) : Type 0 where
  opened : C → Opened C
  refused : Text → Opened C

-- What is written and returned: `none` for the peer when the client could not connect.
pub record Ran (C : Type 0) : Type 0 where
  pub written : List Written
  pub code : ℕ
  pub peer : Option C

-- `tool` is the name in the tool's own messages, and `lost` the text of a lost connection.
module _ {C : Type 0} (tool lost : Text) (peer : Peer C) where
  abbrev pub failure : Text → C → Session C
  failure what c = record { written = error_text (message tool what) ∷ []; code = 1; peer = c }

  -- The loop of `runInteractive`, over the lines that `readline` gives until the end of the input. An
  -- error that the server reports does not end it; a lost connection does.
  unfoldable pub after_command : Answer × C → (C → Session C) → Session C
  after_command (lines ls, d) next = writing (reply_lines ls) (next d)
  after_command (command_error name what, d) next =
      writing (error_text (message name what) ∷ []) (next d)
  after_command (connection_error, d) next = failure lost d

  unfoldable pub interact : Text → List Text → C → Session C
  unfolding after_command
  interact history [] c = record { written = end_of_input ∷ []; code = 0; peer = c }
  interact history (line ∷ input) c = elim (is_empty line) [
    | true ↦ interact history input c
    | false ↦
        writing (save_history history) (after_command (peer line c) (λ d. interact history input d))
  ]

  abbrev ran : List Written → Session C → Ran C
  ran before s = record { written = before ++ s.written; code = s.code; peer = some s.peer }

  abbrev not_connected : List Written → Text → Ran C
  not_connected before what = record {
    written = before ++ error_text (message tool what) ∷ [];
    code = 1;
    peer = none;
  }

  unfoldable pub run_interactive : Text → Opened C → List Text → Ran C
  unfolding interact
  run_interactive history (opened c) input = ran (load_history history) (interact history input c)
  run_interactive history (refused what) input = not_connected (load_history history) what

  unfoldable pub finish_command : Answer × C → Session C
  finish_command (lines ls, d) = record { written = reply_lines ls; code = 0; peer = d }
  finish_command (command_error name what, d) = failure (message name what) d
  finish_command (connection_error, d) = failure lost d

  unfoldable pub run_command : Text → Opened C → Ran C
  unfolding finish_command
  run_command command (opened c) = ran [] (finish_command (peer command c))
  run_command command (refused what) = not_connected [] what

  -- `run`: one command, or a session.
  unfoldable pub run : Text → Opened C → Option Text → List Text → Ran C
  unfolding run_command run_interactive
  run history client (some command) input = run_command command client
  run history client none input = run_interactive history client input

-- `run` of the network tool: the URI is read first, and a text that is none ends the tool.
unfoldable pub run_network :
    {C : Type 0}
    → Text
    → Text
    → Peer C
    → Text
    → Text
    → Option Text
    → Opened C
    → Option Text
    → List Text
    → Ran C
unfolding run
run_network component lost peer program history (some what) client command input = record {
  written = error_text (message program what) ∷ [];
  code = 1;
  peer = none;
}
run_network component lost peer program history none client command input =
    run component lost peer history client command input
