-- ===== src/Tests/Signals.antt =====
-- `--signal` of service/service.cpp at concrete inputs.
use libservice.Prelude.{lit, [], ◌∷◌, ◌++◌, ◌≡◌, refl, arith}
use libservice.SendSignal.{send_signal, wait_for_stop, pre_config_hook}
use libservice.SendSignal.Parsing.{unrecognized_is_status, parse_sig_def-known}
use libservice.SendSignal.Codes.{Waited, wait_for_stop-Waited}
use libservice.SendSignal.Leaving.{Leaves, pre_config_hook-Leaves}
use libservice.Prelude.{some}
use libservice.Tests.Environments.{calm, read_only_lock, pid_path}

unrecognized_is_status_example :
    (send_signal calm 5 pid_path (lit "hup") [] ≡ send_signal calm 5 pid_path (lit "status") [])
    × (send_signal calm 5 pid_path (lit "hup" ++ b'/' ∷ lit "9") []
        ≡ send_signal calm 5 pid_path (lit "status") [])
unrecognized_is_status_example =
    unrecognized_is_status calm 5 pid_path (lit "hup") (lit "9") [] (ground arith) refl

wait_for_stop-Waited_example :
    Waited read_only_lock pid_path 15 2000000000 []
      (wait_for_stop read_only_lock 3 pid_path 15 2 [])
wait_for_stop-Waited_example =
    wait_for_stop-Waited read_only_lock pid_path 15 2 2 3 [] (λ t e. ground arith) (omega arith)

pre_config_hook-Leaves_example :
    Leaves calm (pre_config_hook calm 3 (some (lit "stop/2")) (some pid_path) [])
pre_config_hook-Leaves_example =
    pre_config_hook-Leaves calm pid_path (lit "stop/2") 2 3 []
      (λ seconds t e more. ground (arith, e, (parse_sig_def-known calm (lit "2")).1)) (omega arith)
