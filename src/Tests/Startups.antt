-- ===== src/Tests/Startups.antt =====
-- Persona, daemonization and start of a service at concrete inputs.
use libservice.Prelude.{pos, lit, false, true, none, [], ◌∷◌, ◌≡◌, refl, take, Text, text_eq, Bool}
use libservice.Os.{
  Env, Trace, Same, Returns, Throws, set_effective_and_saved_id, set_real_id, initgroups,
  log_file_owner, set_effective_id, setuid, seteuid, setreuid, ok, fail, interrupted,
}
use libservice.Persona.{uid_setter, gid_setter, Config, switch_persona}
use libservice.Persona.Switching.{user_switches, switch_persona-fails, switch_persona_order}
use libservice.Daemon.{initial}
use libservice.SignalHandler.{signalled}
use libservice.Service.{Options, User, gives, after_fork}
use libservice.Service.Prepared.{unprepared_starts, after_fork_prepared}
use libservice.Service.Startup.{Refused}
use libservice.Tests.Environments.{calm, pid_path}

abbrev named_user : Config
named_user = record { username = lit "daemon"; groupname = []; login_env = true }

-- Every call that sets an id is refused with EPERM.
abbrev pub unprivileged : Env
unprivileged = record calm {
  succeeds =
      λ t c. elim c [ setuid n ↦ fail 1 | seteuid n ↦ fail 1 | setreuid n ↦ fail 1 | _ ↦ ok tt ];
}

switch_persona-fails_example :
    Throws
      (λ e t. user_switches unprivileged t ≡ 0)
      (switch_persona unprivileged set_real_id named_user [])
switch_persona-fails_example = switch_persona-fails unprivileged set_real_id named_user []

switch_persona_order_example :
    Returns
      (λ p t.
        (take 4 t
          ≡ uid_setter set_real_id p.running.uid
            ∷ initgroups (lit "daemon") p.running.gid
            ∷ gid_setter set_real_id p.running.gid
            ∷ log_file_owner p.running.uid p.running.gid
            ∷ [])
        × (user_switches calm t ≡ 1)
        × (p.start ≡ calm.effective []))
      (switch_persona calm set_real_id named_user [])
switch_persona_order_example = switch_persona_order calm set_real_id named_user [] refl

abbrev interrupting : Env
interrupting = record calm { reads = λ t fd. interrupted }

abbrev options : Options
options = record {
  daemonize = false;
  daemonize_nochdir = false;
  daemonize_noclose = false;
  pid_file = pid_path;
  log_file = [];
  ctrl = record { path = []; username = []; group = []; mode = 0 };
  config = named_user;
}

-- A service whose `start` succeeds while a terminate signal is pending.
abbrev pub user : User
user = record {
  before_daemonize = λ t b. gives tt;
  before_persona = λ t. gives set_real_id;
  after_persona = λ t. gives tt;
  start = λ t h. gives h;
  run = λ t h. gives (pos 0);
  events = λ t. signalled none 15 ∷ [];
}

pub refused : Refused unprivileged
refused t set_real_id uid = (1, refl)
refused t set_effective_id uid = (1, refl)
refused t set_effective_and_saved_id uid = (1, refl)

-- A file system of files alone.
abbrev at_path : Trace → Text → Text → Bool
at_path t p q = text_eq p q

-- The service with a pid file that switches to a user.
after_fork_prepared_example :
    Same
      (unprepared_starts calm at_path user options (initial false) [])
      []
      (after_fork calm user options (initial false) [])
after_fork_prepared_example =
    after_fork_prepared calm at_path user options (initial false) [] (λ t. refl)
