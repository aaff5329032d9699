-- ===== src/Tests/Defaults.antt =====
-- Programs that override nothing, at concrete inputs.
use libservice.Prelude.{pos, lit, none, [], ◌∷◌, ◌≡◌, refl}
use libservice.Os.{pure, throw, runtime_error}
use libservice.Program.Options.{Derived}
use libservice.Program.Defaults.{Overrides, with_defaults, handle_operator-refused}
use libservice.Cmdline.{handle_operator}
use libservice.Tests.Environments.{calm}
use libservice.Tests.Programs.{Values, po, derived}

abbrev plain : Overrides Values
plain = record {
  configure_options = none;
  configure_cmdline = none;
  configure_texts = none;
  pre_notify_hook = none;
  pre_config_hook = none;
  extra_parser = none;
  help = none;
  list_helps = none;
  printer = none;
}

-- It asks to collect what nobody declared.
abbrev collecting : Derived Values
collecting = record derived { flags = 2 }

handle_operator-refused_example :
    handle_operator calm po
      (with_defaults plain collecting)
      (λ c. pure (pos 0))
      (lit "mode" ∷ [])
      []
    ≡ handle_operator calm po
        (with_defaults plain collecting)
        (λ c. throw runtime_error)
        (lit "mode" ∷ [])
        []
handle_operator-refused_example =
    handle_operator-refused calm po plain collecting (refl, refl, refl) refl (λ c. pure (pos 0))
      (λ c. throw runtime_error) (lit "mode" ∷ []) []
