-- ===== src/Os/Calls.antt =====
-- What the program asks of the operating system and of the code around it, and the answers.
use libservice.Prelude.{ℕ, ℤ, Bool, Text, List, Option}

-- The exceptions that the program throws or lets through. `system_error` carries `errno`.
pub data Error : Type 0 where
  system_error : ℕ → Error
  runtime_error : Error
  already_running : Error
  immediate_exit : ℤ → Error
  -- `boost::program_options::error`
  po_error : Error

pub data OpenMode : Type 0 where
  create_excl read_write read_only : OpenMode

-- `PersonaSwitchMode`.
pub data PersonaSwitchMode : Type 0 where
  set_real_id set_effective_id set_effective_and_saved_id : PersonaSwitchMode

-- What `configureImpl` prints. `helper` is a call of the helper, whose answer may be no.
pub data Output : Type 0 where
  version_info copyright licence program_name cmdline_options config_generic config_options : Output
  newline : Output
  licensed_to helper : Text → Output

-- What the program uses of a user's entry in the password file.
pub record Passwd : Type 0 where
  pub uid : ℕ
  pub gid : ℕ
  pub name : Text
  pub dir : Text
  pub shell : Text

-- The uid and gid of `utility::Identity`.
pub record Identity : Type 0 where
  pub uid : ℕ
  pub gid : ℕ

pub data Call : Type 0 where
  create_directories : Text → Call
  open_file : OpenMode → Text → Call
  fdopen : ℕ → Call
  scan_pid : ℕ → Call
  lock_fd : ℕ → Call
  unlink : Text → Call
  close_fd : ℕ → Call
  write_pid : ℕ → ℤ → Call
  set_cloexec : ℕ → Call
  kill : ℤ → ℕ → Call
  read_clock : Call
  read_steady_clock : Call
  usleep : ℕ → Call
  -- users and groups
  getpwnam getgrnam : Text → Call
  getpwuid : ℕ → Call
  setuid seteuid setreuid setgid setegid setregid : ℕ → Call
  initgroups : Text → ℕ → Call
  log_file_owner : ℕ → ℕ → Call
  -- `setEffectivePersona` of the utility library
  set_effective_persona : ℕ → ℕ → Call
  apply_environment : List (Text × Text) → Call
  -- processes and descriptors
  chdir : Text → Call
  pipe : Call
  fork : Call
  setsid : Call
  register_atfork : Call
  read_pipe : ℕ → Call
  open_null : Call
  dup_to_stdin : ℤ → Call
  tie : ℕ → Call
  log_console : Bool → Call
  -- the notifier pipe, and `isRunning` of the runnable that owns it
  open_packet_pipe : Call
  read_packet : ℕ → Call
  write_packet : ℕ → Text → Call
  is_running : Call
  -- the control socket
  open_ctrl bind_ctrl remove_all : Text → Call
  chown : Text → ℤ → ℤ → Call
  chmod : Text → ℕ → Call
  -- options and the log
  print : List Output → Call
  read_response_file read_config : Text → Call
  set_log_mask log_file : Text → Call
  log_file_truncate : Call
  log_time_precision : Text → Call
  last_write_time : Text → Call
  rename : Text → Text → Call
  -- the virtual functions of the service
  pre_daemonize : Bool → Call
  pre_persona_switch post_persona_switch start_service run_service : Call
  log_rotated : Text → Call

abbrev pub Trace : Type 0
Trace = List Call

-- The result of a call that returns -1 and sets `errno`, or succeeds.
pub data Answer {ℓ} (A : Type ℓ) : Type ℓ where
  ok : A → Answer A
  fail : ℕ → Answer A

-- What `read` on a pipe brings: some bytes, the end, EINTR, or another error.
pub data ReadResult : Type 0 where
  bytes_read end_of_file interrupted : ReadResult
  read_error : ℕ → ReadResult

-- In which process `fork` returns.
pub data ForkResult : Type 0 where
  fork_failed : ℕ → ForkResult
  in_parent : ℕ → ForkResult
  in_child : ForkResult

pub record Env : Type 0 where
  pub getpid : Trace → ℤ
  pub errno : Trace → ℕ
  pub opens : Trace → OpenMode → Text → Answer ℕ
  pub fdopens : Trace → ℕ → Answer (Unit {0})
  pub scans : Trace → ℕ → Option ℤ
  pub locks : Trace → ℕ → Answer (Unit {0})
  pub unlinks : Trace → Text → Answer (Unit {0})
  pub kills : Trace → ℤ → ℕ → Answer (Unit {0})
  -- `std::time`, in seconds, and the steady clock, in nanoseconds.
  pub clock : Trace → ℕ
  pub steady : Trace → ℕ
  pub makes_directories : Trace → Text → Answer (Unit {0})
  -- `parent_path` of boost::filesystem.
  pub parent_path : Text → Text
  -- `boost::lexical_cast<std::time_t>`.
  pub cast_time : Text → Option ℤ
  -- Whether a call that gives no value succeeds.
  pub succeeds : Trace → Call → Answer (Unit {0})
  pub users : Trace → Text → Option Passwd
  pub groups : Trace → Text → Option ℕ
  pub users_by_id : Trace → ℕ → Option Passwd
  -- `loadEffectivePersona` of the utility library.
  pub effective : Trace → Identity
  pub pipes : Trace → Answer (ℕ × ℕ)
  pub forks : Trace → ForkResult
  pub reads : Trace → ℕ → ReadResult
  -- A packet from a pipe, and whether one is written to it.
  pub receives : Trace → ℕ → Answer Text
  pub sends : Trace → ℕ → Text → Answer (Unit {0})
  pub running : Trace → Bool
  -- The contents of a file, unless it cannot be read, and when it was last written.
  pub contents : Trace → Text → Option Text
  pub written : Trace → Text → Option ℤ
  -- `absolute` of boost::filesystem.
  pub absolute : Text → Text
  -- `open` of the null device, -1 when it fails.
  pub opens_null : Trace → ℤ
