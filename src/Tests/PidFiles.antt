-- ===== src/Tests/PidFiles.antt =====
-- service/pidfile.cpp at concrete inputs.
use libservice.Prelude.{pos, false, [], ◌∷◌, ◌≡◌, refl, arith}
use libservice.Os.{Returns, trace_of}
use libservice.PidFile.{allocate, signal, scoped_pid_file}
use libservice.PidFile.Exclusion.{Holds, allocate-Holds}
use libservice.PidFile.Descriptors.{KeepsPidFile, Balanced, allocate-Balanced, signal-Balanced}
use libservice.PidFile.Signalling.{signal_stale, killed_in}
use libservice.PidFile.Waiting.{Ended, scoped_pid_file-Ended}
use libservice.Tests.Environments.{calm, occupied, read_only_lock, pid_path}

allocate-Holds_example : Returns (λ _ t. Holds calm pid_path t) (allocate calm pid_path [])
allocate-Holds_example = allocate-Holds calm pid_path []

allocate-Balanced_example : KeepsPidFile calm 3 [] (allocate calm pid_path [])
allocate-Balanced_example = allocate-Balanced calm (λ t mode path fd e. ground arith) 3 pid_path []

signal-Balanced_example : Balanced calm 3 [] (signal calm pid_path 15 false [])
signal-Balanced_example =
    signal-Balanced calm (λ t mode path fd e. ground arith) 3 pid_path 15 false []

signal_stale_example :
    killed_in (trace_of (signal read_only_lock pid_path 15 false [])) ≡ (pos 77, 15) ∷ []
signal_stale_example =
    signal_stale read_only_lock pid_path 15 false [] 5 (pos 77) (λ t s fd e. refl) refl refl refl

scoped_pid_file-Ended_example : Ended occupied pid_path (scoped_pid_file occupied 5 pid_path 3 1 [])
scoped_pid_file-Ended_example =
    scoped_pid_file-Ended occupied pid_path 3 1 3 5 [] (λ t e. ground arith) (omega arith)
