-- ===== src/Ctrl/Server.antt =====
-- service/detail/signalhandler.cpp, `CtrlConnection`, and `Service::processCtrl` of
-- service/service.cpp: the answer to one command.
use libservice.Prelude.{
  ℕ, Text, lit, text_eq, Bool, true, false, not, ◌||◌, ◌&&◌, Option, none, some, List, [], ◌∷◌,
  ◌++◌, ◌==◌, if◌then◌else◌,
}
use libservice.SignalHandler.{Handler, ErrorCode, schedule_log_rotate, terminate}
use libservice.Ctrl.{Strings, getline, newline, end_of_block}

-- `utility::CtrlCommand`.
pub record CtrlCommand : Type 0 where
  pub cmd : Text
  pub args : List Text

-- An exception out of a command: `utility::CtrlCommandError` with its text, or any other.
pub data CtrlError : Type 0 where
  command_error : Text → CtrlError
  other_exception : CtrlError

-- What a function wrote, the exception that it threw then, if any, and its answer if it did not; and
-- what it did to the signal handler, by `stop`, `globalTerminate`, `registerSignal` and their like.
pub record Written : Type 0 where
  pub acts : Handler → Handler
  pub text : Text
  pub thrown : Option CtrlError
  pub answer : Bool

-- The virtual functions of the service: `ctrl`, `stat` and the monitor report. What they do may depend
-- on the state of the service, so that each call has an owner of its own.
pub record Owner : Type 0 where
  pub ctrl : CtrlCommand → Written
  pub stat : Written
  pub monitor : Written

abbrev pub wrote : Text → Written
wrote text = record { acts = λ h. h; text = text; thrown = none; answer = true }

-- One write after the other, unless the first threw.
abbrev pub then_write : Written → Text → Written
then_write w more = elim w.thrown [ none ↦ record w { text = w.text ++ more } | some e ↦ w ]

abbrev pub service_help : Text
service_help =
    lit
      "stat           shows service statistics\nmonitor        returns information suitable for service monitoring\n"

abbrev pub not_implemented : Text → Text
not_implemented cmd = lit "error: command <" ++ (cmd ++ lit "> not implemented\n")

-- The last branch: `ctrl`, and an error line when it answers false.
unfoldable pub dispatch_ctrl : Owner → CtrlCommand → Written
dispatch_ctrl owner cmd =
    let w : Written = owner.ctrl cmd in
    if w.answer then w else then_write w (not_implemented cmd.cmd)

-- `Service::processCtrl`.
unfoldable pub process_ctrl : Owner → CtrlCommand → Written
unfolding dispatch_ctrl
process_ctrl owner cmd =
    if text_eq cmd.cmd (lit "help")
    then record (owner.ctrl cmd) { text = service_help ++ (owner.ctrl cmd).text }
    else (if text_eq cmd.cmd (lit "stat")
        then owner.stat
        else (if text_eq cmd.cmd (lit "monitor") then owner.monitor else dispatch_ctrl owner cmd))

-- The connection: what was read and not yet used, and whether it closes after the reply.
pub record Connection : Type 0 where
  pub input : Text
  pub closed : Bool

-- What one call of `lineRead` does: the reply that it sends, and whether it reads on.
pub record Served : Type 0 where
  pub handler : Handler
  pub connection : Connection
  pub reply : Option Text
  pub reads_on : Bool

abbrev pub handler_help : Text
handler_help =
    lit
      "logrotate      schedules log reopen event\nterminate      schedules termination event\nhelp           shows this help\n"

-- The text of a command's reply, after the two handlers of exceptions.
unfoldable pub reply_text : Written → Text
reply_text w = elim w.thrown [
  | none ↦ w.text
  | some e ↦ elim e [
    | command_error what ↦ w.text ++ (lit "error: " ++ (what ++ lit " \n"))
    | other_exception ↦ w.text ++ lit "error: failed to execute command\n"
  ]
]

-- A command's effect on the signal handler, its reply, and whether it closes the connection.
pub record Executed : Type 0 where
  pub handler : Handler
  pub text : Text
  pub exits : Bool

unfoldable pub execute : Owner → CtrlCommand → Handler → Executed
unfolding reply_text
execute owner cmd h =
    if text_eq cmd.cmd (lit "logrotate")
    then record {
      handler = schedule_log_rotate h;
      text = lit "log rotation scheduled\n";
      exits = false;
    }
    else (if text_eq cmd.cmd (lit "terminate")
        then record {
          handler = terminate h;
          text = lit "termination scheduled, bye\n";
          exits = false;
        }
        else (if text_eq cmd.cmd (lit "exit")
            then record { handler = h; text = []; exits = true }
            else (if text_eq cmd.cmd (lit "help")
                then record {
                  handler = (process_ctrl owner cmd).acts h;
                  text = handler_help ++ reply_text (process_ctrl owner cmd);
                  exits = false;
                }
                else record {
                  handler = (process_ctrl owner cmd).acts h;
                  text = reply_text (process_ctrl owner cmd);
                  exits = false;
                })))

-- A leading `!` closes the connection after the command.
abbrev pub bang : Text → Bool
bang [] = false
bang (c ∷ s) = c == b'!'

abbrev pub unbanged : Text → Text
unbanged [] = []
unbanged (c ∷ s) = if c == b'!' then s else c ∷ s

-- The end of `lineRead`: the block's end unless the connection closes by this command.
unfoldable pub finish : Handler → Text → Bool → Text → Bool → Served
finish h rest closed text closes = record {
  handler = h;
  connection = record { input = rest; closed = closed || closes };
  reply = some (if closes then text else text ++ end_of_block ∷ []);
  reads_on = not (closed || closes);
}

unfoldable pub run_words : Owner → List Text → Handler → Text → Bool → Served
unfolding finish
run_words owner [] h rest closed = finish h rest closed (lit "empty command received\n") false
run_words owner (front ∷ args) h rest closed =
    let done = execute owner (record { cmd = unbanged front; args = args }) h in
    finish done.handler rest closed done.text (bang front || done.exits)

-- `lineRead`. An error ends the connection with no reply.
unfoldable pub line_read : Strings → Owner → Option ErrorCode → Handler → Connection → Served
line_read lib owner (some e) h con = record {
  handler = h;
  connection = con;
  reply = none;
  reads_on = false;
}
line_read lib owner none h con =
    let (line, rest) = getline newline con.input in
    run_words owner (lib.split_words line) h rest con.closed

-- `handleWrite`, with what is left to write: whether the socket is closed.
unfoldable pub handle_write : Option ErrorCode → ℕ → Connection → Bool
handle_write (some e) unsent con = false
handle_write none unsent con = con.closed && unsent == 0
