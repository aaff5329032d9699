-- ===== src/Ctrl/Replies.antt =====
-- service/detail/signalhandler.cpp, `CtrlConnection::lineRead`: what each command does to the signal
-- handler and to the connection.
use libservice.Prelude.{Text, lit, text_eq, Bool, ◌||◌, List, if◌then◌else◌}
use libservice.SignalHandler.{Handler, schedule_log_rotate, terminate}
use libservice.Ctrl.Server.{CtrlCommand, Owner, bang, unbanged, process_ctrl}

-- The connection ends with this command.
abbrev pub stops : Text → Bool
stops front = bang front || text_eq (unbanged front) (lit "exit")

-- What a command does to the signal handler: `logrotate` and `terminate` what the connection does,
-- `exit` nothing, any other what the service's own function does.
abbrev pub effect : Owner → CtrlCommand → Handler → Handler
effect owner cmd h =
    if text_eq cmd.cmd (lit "logrotate")
    then schedule_log_rotate h
    else (if text_eq cmd.cmd (lit "terminate")
        then terminate h
        else (if text_eq cmd.cmd (lit "exit") then h else (process_ctrl owner cmd).acts h))
