-- ===== src/CtrlTool/Main.antt =====
-- service/tools/ctrlclient.cpp and service/tools/netctrlclient.cpp, from `main` to `run`: the tools as
-- command line programs.
use libservice.Prelude.{
  ℕ, ℤ, pos, Text, lit, Bool, Option, none, some, List, [], ◌∷◌, is_empty, if◌then◌else◌,
}
use libservice.Os.{Env, Trace, M, pure}
use libservice.Program.Options.{Po, Derived}
use libservice.Program.Files.{first_text}
use libservice.Program.Configure.{Configured}
use libservice.Program.Declarations.{Declared, with_value, letter}
use libservice.Program.Defaults.{Overrides, with_defaults}
use libservice.Cmdline.{handle_operator}
use libservice.Cmdline.Exits.{NoThrow, handle_operator-NoThrow}
use libservice.NetClient.{Peer}
use libservice.CtrlTool.{Opened, run, run_network}

-- The options of both tools. `connect` is also the first positional argument.
unfoldable pub configuration : Declared
configuration = record {
  cmdline =
      with_value (lit "connect")
      ∷ with_value (lit "history")
      ∷ letter b'c' (with_value (lit "command"))
      ∷ [];
  config = [];
}

-- The program's description is its only help.
unfoldable pub help : Text → Bool
help what = is_empty what

abbrev pub disable_excessive_logging : ℕ
disable_excessive_logging = 4

module _ {V C : Type 0} (env : Env) (po : Po V) (lost : Text) (peer : Peer C)
    (input : List Text) where
  -- A tool overrides `help` alone.
  unfoldable pub overrides : Overrides V
  unfolding help
  overrides = record {
    configure_options = none;
    configure_cmdline = none;
    configure_texts = none;
    pre_notify_hook = none;
    pre_config_hook = none;
    extra_parser = none;
    help = some help;
    list_helps = none;
    printer = none;
  }

  unfoldable pub tool : Derived V → Derived V
  unfolding overrides
  tool own = with_defaults overrides (record own {
    flags = disable_excessive_logging;
    default_config_file = none;
    configure = λ vm. pure tt;
  })

  abbrev pub option : Text → V → Option Text
  option k vm = if po.count k vm then some (first_text (po.texts k vm)) else none

  abbrev pub text_option : Text → V → Text
  text_option k vm = if po.count k vm then first_text (po.texts k vm) else []

  -- `run` over what the configuration has set. `opens` makes a client for the value of `connect`.
  unfoldable pub run_local : Text → (Text → Opened C) → Configured V → M ℤ
  run_local name opens c = pure (
      pos
        (run name lost peer (text_option (lit "history") c.vm)
          (opens (text_option (lit "connect") c.vm)) (option (lit "command") c.vm) input).code)

  -- The network tool. `wrong` is the error of a URI, if it has one, and `component` its component.
  unfoldable pub run_remote :
      Text → (Text → Option Text) → (Text → Text) → (Text → Opened C) → Configured V → M ℤ
  run_remote name wrong component opens c =
      let uri : Text = text_option (lit "connect") c.vm in
      pure (
        pos
          (run_network (component uri) lost peer name (text_option (lit "history") c.vm) (wrong uri)
            (opens uri) (option (lit "command") c.vm) input).code)

  -- `main` of a tool with this `run`.
  unfoldable pub main : (Configured V → M ℤ) → Derived V → List Text → M ℤ
  unfolding tool
  main tool_run own args = handle_operator env po (tool own) tool_run args

  -- No exception leaves either tool, whatever its arguments are and whatever the server does.
  main-NoThrow :
      (name : Text) (wrong : Text → Option Text) (component : Text → Text) (opens : Text → Opened C)
      (own : Derived V) (args : List Text) (h : Trace)
      → NoThrow (main (run_local name opens) own args h)
        × NoThrow (main (run_remote name wrong component opens) own args h)
  unfolding main run_local run_remote
  main-NoThrow name wrong component opens own args h = (
    handle_operator-NoThrow env po (tool own) (run_local name opens) args h (λ c t. tt),
    handle_operator-NoThrow env po (tool own) (run_remote name wrong component opens) args h
        (λ c t. tt),
  )
