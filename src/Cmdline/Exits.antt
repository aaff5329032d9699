-- ===== src/Cmdline/Exits.antt =====
-- service/cmdline.cpp and service/program.cpp: which exceptions leave the program.
use libservice.Prelude.{ℤ, Text, List, arith}
use libservice.Os.{
  Env, Error, immediate_exit, system_error, runtime_error, already_running, po_error, catch, Trace,
  Run, done, threw, quit, undefined, Throws, M, ◌>>=◌, pure, bind_rule, catch_rule,
}
use libservice.Program.Options.{Po, Derived}
use libservice.Program.Configure.{Configured, configure, configure_impl}
use libservice.Cmdline.{
  Started, configured, ended, exit_with, configured_or_code, run_unless, handle_operator,
}

-- The exception is `immediate_exit`.
abbrev pub IsExit : Error → Type 0
IsExit (immediate_exit code) = Unit
IsExit _ = ⊥

-- A run that throws nothing else, and one that throws nothing.
abbrev pub Exits {ℓ} : {A : Type ℓ} → Run A → Type 0
Exits = Throws (λ e t. IsExit e)

abbrev pub NoThrow {ℓ} : {A : Type ℓ} → Run A → Type 0
NoThrow = Throws (λ e t. ⊥)

exit_caught {ℓ} :
    {A : Type ℓ} (m : M A) (f : ℤ → A) (h : Trace) → Exits (m h) → NoThrow (catch m (exit_with f) h)
exit_caught {A} m f h q = go (m h) q
  where
    go :
        (r : Run A)
        → Exits r
        → NoThrow (elim r as (λ x. Run A) [
          | done a t ↦ done a t
          | threw e t ↦ exit_with f e t
          | quit c t ↦ quit c t
          | undefined t ↦ undefined t
        ])
    go (done a t) q = tt
    go (threw (immediate_exit code) t) q = tt
    go (threw (system_error n) t) q = elim q [ ]
    go (threw runtime_error t) q = elim q [ ]
    go (threw already_running t) q = elim q [ ]
    go (threw po_error t) q = elim q [ ]
    go (quit c t) q = tt
    go (undefined t) q = tt

module _ {V : Type 0} (env : Env) (po : Po V) (d : Derived V) where
  -- Whatever exception the parsing, the files and the program's functions raise, nothing but
  -- `immediate_exit` leaves `configure`.
  configure-Exits : (args : List Text) (h : Trace) → Exits (configure env po d args h)
  unfolding configure
  configure-Exits args h =
      catch_rule Exits (configure_impl env po d args) _ h (λ c t e. tt) (λ e t x. ground arith)
        (λ c t x. tt) (λ t x. tt)

  -- A command line program ends with a code: no exception leaves it, where none but `immediate_exit`
  -- leaves its `run`.
  pub handle_operator-NoThrow :
      (run : Configured V → M ℤ) (args : List Text) (h : Trace)
      → ((c : Configured V) (t : Trace) → Exits (run c t))
      → NoThrow (handle_operator env po d run args h)
  unfolding handle_operator configured_or_code run_unless
  handle_operator-NoThrow run args h exits =
      bind_rule NoThrow (configured_or_code env po d args) (run_unless env po d run) h
        (λ r t e. running r t) (λ e t x. ground (arith, first)) (λ c t x. tt) (λ t x. tt)
    where
      ready : M (Started V)
      ready = do c ← configure env po d args; pure (configured c)

      first : NoThrow (configured_or_code env po d args h)
      first = exit_caught ready (λ code. ended code) h (ground (arith, configure-Exits args h))

      running : (r : Started V) (t : Trace) → NoThrow (run_unless env po d run r t)
      running (configured c) t = exit_caught (run c) (λ code. code) t (exits c t)
      running (ended code) t = tt
