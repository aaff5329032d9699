-- ===== src/Service/Refusals.antt =====
-- service/service.cpp, `operator()` as a whole: a service that cannot become its user.
use libservice.Prelude.{
  ℕ, ℤ, Text, lit, false, Option, none, some, List, [], ◌∷◌, ◌≡◌, refl, arith, is_empty, Bool-cases,
  inl, inr,
}
use libservice.Os.{
  Env, Trace, Returns, Returns-bind, Same-bind, bind_rule, M, ◌>>=◌, pure, pre_daemonize,
}
use libservice.Daemon.{Globals, initial, Outcome, run_in_background, returns, out_of_fuel, daemon}
use libservice.Daemon.Starting.{run_in_background-NoStart}
use libservice.Program.Options.{Po, Derived}
use libservice.Program.Configure.{Configured, configure}
use libservice.Program.Stored.{StoreLaws, Has, GivenBy}
use libservice.Program.Precedence.{configure-Has}
use libservice.Program.Starting.{starts_in, NoStart, Calm, configure-NoStart}
use libservice.Service.{
  Options, User, Hook, gives, raises, hook, make_absolute, after_checks, configure_checked,
  daemonized, run_operator, after_fork,
}
use libservice.Service.Startup.{Refused, after_fork_refused}
use libservice.Service.Settings.{options_of, operator_call}

module _ (env : Env) (user : User) (refused : Refused env) where
  -- The options name a user.
  abbrev IsNamed : Options → Type 0
  IsNamed o = is_empty o.config.username ≡ false

  after_fork-NoStart :
      (o : Options) (g : Globals) (h : Trace) → IsNamed o → NoStart h (after_fork env user o g h)
  after_fork-NoStart o g h named = (after_fork_refused env user o g h refused named).1

  outcome-NoStart :
      (o : Options) (out : Outcome) (h : Trace)
      → IsNamed o
      → NoStart h (
          (elim out as (λ x. M (Option ℤ)) [
            | returns code ↦ pure (some code)
            | out_of_fuel ↦ pure none
            | daemon g ↦ (do c ← after_fork env user o g; pure (some c))
          ])
            h)
  outcome-NoStart o (returns code) h named = refl
  outcome-NoStart o out_of_fuel h named = refl
  outcome-NoStart o (daemon g) h named =
      Same-bind starts_in (after_fork env user o g) _ h (after_fork-NoStart o g h named)
        (λ c t. refl)

  daemonized-NoStart :
      (fuel : ℕ) (o : Options) (h : Trace) → IsNamed o → NoStart h (daemonized env user fuel o h)
  unfolding daemonized
  daemonized-NoStart fuel o h named = elim (Bool-cases o.daemonize) [
    | inl e ↦ simp e (
        Same-bind starts_in
          (run_in_background env fuel o.daemonize_nochdir (initial o.daemonize_noclose)) _ h
          (run_in_background-NoStart env fuel o.daemonize_nochdir (initial o.daemonize_noclose) h)
          (λ out t. outcome-NoStart o out t named))
    | inr e ↦ simp e (
        Same-bind starts_in (after_fork env user o (initial o.daemonize_noclose)) _ h
          (after_fork-NoStart o (initial o.daemonize_noclose) h named) (λ c t. refl))
  ]

  -- What is left of the checks keeps the user.
  abbrev Checked : Hook Options → Type 0
  Checked (gives o) = IsNamed o
  Checked (raises e) = Unit

  configure_checked-Checked :
      (absolute : Text → Text) (configured : M Options) (h : Trace)
      → NoStart h (configured h)
      → Returns (λ o t. IsNamed o) (configured h)
      → NoStart h (configure_checked env absolute configured h)
        × Returns (λ r t. Checked r) (configure_checked env absolute configured h)
  unfolding configure_checked make_absolute
  configure_checked-Checked absolute configured h q named = ground (arith, q, named)

  rest-NoStart :
      (fuel : ℕ) (r : Hook Options) (h : Trace)
      → Checked r
      → NoStart h (after_checks env user fuel r h)
  unfolding after_checks
  rest-NoStart fuel (raises e) h named = ground arith
  rest-NoStart fuel (gives o) h named =
      Same-bind starts_in
        (hook (pre_daemonize o.daemonize) (λ t. user.before_daemonize t o.daemonize)) _ h
        (ground arith) (λ u t. daemonized-NoStart fuel o t named)

  pub run_operator-NoStart :
      (absolute : Text → Text) (fuel : ℕ) (configured : M Options) (h : Trace)
      → NoStart h (configured h)
      → Returns (λ o t. IsNamed o) (configured h)
      → NoStart h (run_operator env user absolute fuel configured h)
  unfolding run_operator
  run_operator-NoStart absolute fuel configured h q named =
      let checked = configure_checked-Checked absolute configured h q named in
      bind_rule (NoStart h) (configure_checked env absolute configured) (after_checks env user fuel)
        h (λ r t e. ground (arith, rest-NoStart fuel r t (rw e at checked.1), checked.0, e))
        (λ e t x. ground (arith, checked.0)) (λ c t x. ground (arith, checked.0))
        (λ t x. ground (arith, checked.0))

module _ {V : Type 0} (env : Env) (po : Po V) (laws : StoreLaws po) (name : Text) (d : Derived V)
    (calm : Calm d) where
  -- The command line names this user.
  abbrev pub UserGiven : List Text → Type 0
  UserGiven args = GivenBy laws (lit "service.user") (name ∷ []) d args

  named-options :
      (octal : Text → ℕ) (c : Configured V)
      → is_empty name ≡ false
      → Has laws (lit "service.user") (name ∷ []) c.vm
      → is_empty (options_of po octal c).config.username ≡ false
  unfolding options_of
  named-options octal c named has =
      rw
        (
          laws.counts (lit "service.user") (name ∷ []) c.vm has,
          laws.reads (lit "service.user") (name ∷ []) c.vm has,
        )
        named

  -- Where a value that is stored stays, is counted and is read: a service whose command line names a
  -- user, and for which no call that changes the user succeeds, never calls its `start`: neither before
  -- the daemonization nor after it, in whichever process, and whatever the files say, unless a function
  -- that the configuration calls does so itself.
  pub operator_call_refused :
      (octal : Text → ℕ) (user : User) (fuel : ℕ) (args : List Text) (h : Trace)
      → Refused env
      → is_empty name ≡ false
      → UserGiven args
      → NoStart h (operator_call po octal env d user fuel args h)
  unfolding operator_call
  operator_call_refused octal user fuel args h refused named given =
      run_operator-NoStart env user refused env.absolute fuel
        (do c ← configure env po d args; pure (options_of po octal c)) h
        (Same-bind starts_in (configure env po d args) _ h (configure-NoStart env po d calm args h)
          (λ c t. refl))
        (Returns-bind (λ c t. Has laws (lit "service.user") (name ∷ []) c.vm) _
          (configure env po d args) _ h
          (configure-Has env po laws (lit "service.user") (name ∷ []) d args h given)
          (λ c t has. named-options octal c named has))
