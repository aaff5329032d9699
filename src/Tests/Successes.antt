-- ===== src/Tests/Successes.antt =====
-- A service that comes up, at concrete inputs.
use libservice.Prelude.{pos, lit, true, some, [], ◌≡◌, refl}
use libservice.Os.{set_real_id, pure}
use libservice.Service.{Options, User, gives, check_options, run_operator}
use libservice.Service.Success.{Works, Willing, Gives, run_operator-Gives}
use libservice.Tests.Environments.{calm, pid_path}

abbrev works : Works calm
works = record {
  opens = λ t path. refl;
  fdopens = λ t fd. refl;
  locks = λ t fd. refl;
  makes_directories = λ t p. refl;
  succeeds = λ t c. refl;
  users = λ t n. refl;
  users_by_id = λ t n. refl;
  pipes = λ t. refl;
  forks = λ t. refl;
  groups = λ t n. refl;
}

abbrev user : User
user = record {
  before_daemonize = λ t b. gives tt;
  before_persona = λ t. gives set_real_id;
  after_persona = λ t. gives tt;
  -- It asks for a log rotation.
  start = λ t h. gives (record h { shared = record (h.shared) { log_rotate_event = 1 } });
  run = λ t h. gives (pos 3);
  events = λ t. [];
}

abbrev willing : Willing user set_real_id (pos 3)
willing = record {
  before_daemonize = λ t b. refl;
  before_persona = λ t. refl;
  after_persona = λ t. refl;
  start = λ t h going. going;
  run = λ t h. refl;
  events = λ t. refl;
}

-- In the background, with a pid file, a log file and a control socket, as another user.
abbrev options : Options
options = record {
  daemonize = true;
  daemonize_nochdir = true;
  daemonize_noclose = true;
  pid_file = pid_path;
  log_file = lit "/var/log/service.log";
  ctrl = record { path = lit "/run/ctrl"; username = []; group = lit "ctrl"; mode = 432 };
  config = record { username = lit "daemon"; groupname = []; login_env = true };
}

run_operator-Gives_example :
    Gives (λ r. r ≡ some (pos 3)) (run_operator calm user (λ path. path) 1 (pure options) [])
run_operator-Gives_example =
    run_operator-Gives calm works user set_real_id (pos 3) willing (λ path. path) 1 (pure options)
      [] (unfold check_options in refl)
