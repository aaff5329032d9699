-- ===== src/Service/Settings.antt =====
-- service/service.cpp, the start of `Service::operator()`, and the `configure` and `configuration` of
-- `Service::Config` and of `CtrlConfig` (service/detail/signalhandler.cpp): a service's options, and the
-- call of a service with its arguments.
use libservice.Prelude.{ℕ, ℤ, Text, lit, ◌&&◌, Option, none, some, List, [], if◌then◌else◌}
use libservice.Os.{Env, M, ◌>>=◌, pure}
use libservice.Persona.{Config}
use libservice.Program.Options.{Po, Derived}
use libservice.Program.Files.{first_text}
use libservice.Program.Configure.{Configured, configure}
use libservice.Service.{CtrlConfig, Options, User, run_operator}

-- `octal` reads the permissions, as a stream does with `std::oct`.
module _ {V : Type 0} (po : Po V) (octal : Text → ℕ) where
  -- A variable that Boost.Program_options sets when the option is there.
  abbrev pub text_of : Text → V → Text
  text_of k vm = if po.count k vm then first_text (po.texts k vm) else []

  unfoldable pub ctrl_config : V → CtrlConfig
  ctrl_config vm = record {
    path = text_of (lit "ctrl") vm;
    username = text_of (lit "ctrl.user") vm;
    group = text_of (lit "ctrl.group") vm;
    mode =
        if po.count (lit "ctrl.mode") vm
        then octal (first_text (po.texts (lit "ctrl.mode") vm))
        else 0;
  }

  unfoldable pub persona_config : V → Config
  persona_config vm = record {
    username = text_of (lit "service.user") vm;
    groupname = text_of (lit "service.group") vm;
    login_env = po.count (lit "service.loginEnv") vm && po.flag (lit "service.loginEnv") vm;
  }

  abbrev pub file_or_empty : Option Text → Text
  file_or_empty none = []
  file_or_empty (some file) = file

  unfoldable pub options_of : Configured V → Options
  unfolding ctrl_config persona_config
  options_of c = record {
    daemonize = po.count (lit "daemonize") c.vm;
    daemonize_nochdir = po.count (lit "daemonize-nochdir") c.vm;
    daemonize_noclose = po.count (lit "daemonize-noclose") c.vm;
    pid_file = text_of (lit "pidfile") c.vm;
    log_file = file_or_empty c.log_file;
    ctrl = ctrl_config c.vm;
    config = persona_config c.vm;
  }

  -- `operator()` over the arguments.
  unfoldable pub operator_call : Env → Derived V → User → ℕ → List Text → M (Option ℤ)
  unfolding options_of
  operator_call env d user fuel args =
      run_operator env user env.absolute fuel (do c ← configure env po d args; pure (options_of c))
