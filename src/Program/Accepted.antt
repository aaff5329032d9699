-- ===== src/Program/Accepted.antt =====
-- service/program.cpp, `configureImpl`: which declared options are accepted where.
use libservice.Prelude.{
  ℕ, Text, lit, Bool, true, false, ◌||◌, ◌⊎◌, inl, inr, Option, none, some, List, [], ◌∷◌, ◌++◌,
  ◌≡◌, refl, arith, is_empty, ◌==◌, if◌then◌else◌,
}
use libservice.Program.Options.{after, help_value, response_file, special_parser}
use libservice.Program.Declarations.{
  Declaration, Declared, generic_cmdline, generic_config, hidden_cmdline, response_file_options,
  extra, all, full, configs, declares,
}

declares-append :
    (name : Text) (a b : List Declaration)
    → declares name (a ++ b) ≡ (declares name a || declares name b)
declares-append name [] b = refl
declares-append name (d ∷ a) b = ground (arith, declares-append name a b)

declares-parts :
    (name : Text) (a b c d e f : List Declaration)
    → declares name (a ++ b ++ c ++ d ++ e ++ f) ≡ (
        declares name a
        || (declares name b || (declares name (c ++ d) || (declares name e || declares name f))))
declares-parts name a b c d e f = ground (
  arith,
  declares-append name (a ++ b ++ c ++ d ++ e) f,
  declares-append name (a ++ b ++ c ++ d) e,
  declares-append name (a ++ b ++ c) d,
  declares-append name (a ++ b) c,
  declares-append name a b,
  declares-append name c d,
)

module _ (flags : ℕ) (helps : List Text) (generic own : Declared) where
  declares-all :
      (name : Text)
      → declares name (all flags helps generic own) ≡ (
          declares name (generic_cmdline generic.cmdline helps)
          || (declares name own.cmdline
              || (declares name (configs flags helps generic own)
                  || (declares name hidden_cmdline || declares name (extra flags)))))
  unfolding all configs
  declares-all name =
      declares-parts name (generic_cmdline generic.cmdline helps) own.cmdline
        (generic_config generic.config) own.config hidden_cmdline (extra flags)

  on_command_line :
      (name : Text)
      → declares name (full flags helps generic own)
        ≡ (declares name (all flags helps generic own) || declares name response_file_options)
  unfolding full
  on_command_line name = declares-append name (all flags helps generic own) response_file_options

  -- What a configuration file may say, the command line may say too, and a response file.
  configs-on_cmdline :
      (name : Text)
      → declares name (configs flags helps generic own) ≡ true
      → (declares name (all flags helps generic own) ≡ true)
        × (declares name (full flags helps generic own) ≡ true)
  configs-on_cmdline name e = ground (arith, e, declares-all name, on_command_line name)

  help_declared :
      (declares (lit "#help") (all flags helps generic own) ≡ true)
      × (declares (lit "#help") (full flags helps generic own) ≡ true)
  help_declared = ground (arith, declares-all (lit "#help"), on_command_line (lit "#help"))

  abbrev pub Accepted : Text → Type 0
  Accepted name =
      (is_empty name ≡ true)
      ⊎ ((declares name (full flags helps generic own) ≡ true)
          × ((declares name (all flags helps generic own) ≡ true) ⊎ (name ≡ lit "response-file")))

  abbrev taken : Text → Bool → Text × Text
  taken s b = if b then (lit "response-file", s) else ([], [])

  response_declared : (arg : Text) → Accepted (response_file arg).0
  unfolding response_file
  response_declared [] = inl refl
  response_declared (c ∷ s) = elim (c == b'@') as (λ b. Accepted (taken s b).0) [
    | true ↦ inr (ground (arith, on_command_line (lit "response-file")), inr refl)
    | false ↦ inl refl
  ]

  abbrev answer_of : Text → Option Text → Text × Text
  answer_of arg r = elim r [
    | some value ↦ (lit "#help", help_value value)
    | none ↦ response_file arg
  ]

  -- What the special parser makes of an argument, if it makes anything of it, is the name of an option
  -- that the command line has, and that a response file has too unless it names another response file.
  special_parser-IsDeclared : (arg : Text) → Accepted (special_parser arg).0
  unfolding special_parser
  special_parser-IsDeclared arg =
      elim (after (lit "--help-") arg) as (λ r. Accepted (answer_of arg r).0) [
        | some value ↦ inr (help_declared.1, inl help_declared.0)
        | none ↦ response_declared arg
      ]
