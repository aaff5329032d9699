-- ===== src/Ctrl/Unknown.antt =====
-- The control interface over commands that a service does not know: `Service::processCtrl` of
-- service/service.cpp and `CtrlClient::command` of service/detail/ctrlclient.hpp.
use libservice.Prelude.{Text, lit, List, ◌++◌}
use libservice.Ctrl.Client

-- What the caller is told.
abbrev pub complaint : Text → Text
complaint front = lit "command <" ++ (front ++ lit "> not implemented")
