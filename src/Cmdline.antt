-- ===== src/Cmdline.antt =====
-- service/cmdline.cpp, `Cmdline`: a program that is configured, runs once and ends.
use libservice.Prelude.{ℤ, Text, List}
use libservice.Os.{Env, Error, immediate_exit, M, ◌>>=◌, pure, throw, catch}
use libservice.Program.Options.{Po, Derived}
use libservice.Program.Configure.{Configured, configure}
pub mod Exits

-- `catch (const immediate_exit &e)`: the code; any other exception passes.
abbrev pub exit_with {ℓ} : {A : Type ℓ} → (ℤ → A) → Error → M A
exit_with f e = elim e [ immediate_exit code ↦ pure (f code) | other ↦ throw other ]

-- What the first `try` leaves: the configured program, or the code with which it ends.
pub data Started (V : Type 0) : Type 0 where
  configured : Configured V → Started V
  ended : ℤ → Started V

module _ {V : Type 0} (env : Env) (po : Po V) (d : Derived V) where
  unfoldable pub configured_or_code : List Text → M (Started V)
  configured_or_code args =
      catch (do c ← configure env po d args; pure (configured c)) (exit_with (λ code. ended code))

  -- `run` reads what the configuration has set.
  unfoldable pub run_unless : (Configured V → M ℤ) → Started V → M ℤ
  run_unless run (ended code) = pure code
  run_unless run (configured c) = catch (run c) (exit_with (λ code. code))

  -- `handleOperator`, and `operator()`, which hands on to it.
  unfoldable pub handle_operator : (Configured V → M ℤ) → List Text → M ℤ
  unfolding configured_or_code run_unless
  handle_operator run args = do r ← configured_or_code args; run_unless run r
