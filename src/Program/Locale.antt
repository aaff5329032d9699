-- ===== src/Program/Locale.antt =====
-- service/program.cpp: the constructor of `Program`, with its look at the locale of the environment.
use libservice.Prelude.{
  Bool-cases, ap, eq_of_text_eq, text_eq_self, ◌||◌, Text, lit, text_eq, Bool, true, false, Option,
  none, some, List, [], ◌∷◌, ◌++◌, ◌≡◌, refl, arith, if◌then◌else◌,
}

-- What the constructor sees and changes of the process: the variables of the environment, and the
-- locale.
pub record Process : Type 0 where
  pub environment : List (Text × Text)
  pub locale : Text

unfoldable pub getenv : Text → List (Text × Text) → Option Text
getenv name [] = none
getenv name ((other, value) ∷ env) =
    let rest = getenv name env in if text_eq name other then some value else rest

unfoldable pub unsetenv : Text → List (Text × Text) → List (Text × Text)
unsetenv name [] = []
unsetenv name ((other, value) ∷ env) =
    let rest = unsetenv name env in if text_eq name other then rest else (other, value) ∷ rest

-- The variables that say what the locale is.
abbrev pub locale_variables : List Text
locale_variables =
    lit "LANG"
    ∷ lit "LC_ALL"
    ∷ lit "LC_COLLATE"
    ∷ lit "LC_CTYPE"
    ∷ lit "LC_MONETARY"
    ∷ lit "LC_NUMERIC"
    ∷ lit "LC_TIME"
    ∷ []

abbrev pub separator : Bool → Text
separator true = []
separator false = lit ", "

-- `operator<<` of `Env`: the variables that are set, the first without a comma.
unfoldable pub print_variables : Bool → List Text → List (Text × Text) → Text
unfolding getenv
print_variables first [] env = []
print_variables first (var ∷ vars) env =
    let skipped = print_variables first vars env in
    let printed = print_variables false vars env in
    elim (getenv var env) [
      | none ↦ skipped
      | some value ↦ separator first ++ var ++ lit "=" ++ value ++ printed
    ]

unfoldable pub print_environment : Process → Text
unfolding print_variables
print_environment p = print_variables true locale_variables p.environment

unfoldable pub unset_all : List Text → List (Text × Text) → List (Text × Text)
unfolding unsetenv
unset_all [] env = env
unset_all (var ∷ vars) env = unset_all vars (unsetenv var env)

-- `setCLocale`.
unfoldable pub set_c_locale : Process → Process
unfolding unset_all
set_c_locale p = record { environment = unset_all locale_variables p.environment; locale = lit "C" }

-- The constructor's `try`: an unknown locale is told of and given up. `known` is whether
-- `std::locale("")` accepts the environment.
unfoldable pub check_locale : (List (Text × Text) → Bool) → Process → Process × Option Text
unfolding set_c_locale print_environment
check_locale known p =
    if known p.environment then (p, none) else (set_c_locale p, some (print_environment p))

abbrev pub is_among : Text → List Text → Bool
is_among name [] = false
is_among name (var ∷ vars) = text_eq name var || is_among name vars

-- Equal names compare alike.
text_eq-same :
    (a b c : Text) → text_eq a b ≡ true → (text_eq c a ≡ text_eq c b) × (text_eq a c ≡ text_eq b c)
text_eq-same a b c e =
    (ap (text_eq c) (eq_of_text_eq a b e), ap (λ t. text_eq t c) (eq_of_text_eq a b e))

getenv-unsetenv :
    (name var : Text) (env : List (Text × Text))
    → getenv name (unsetenv var env) ≡ (if text_eq name var then none else getenv name env)
unfolding getenv unsetenv
getenv-unsetenv name var [] = ground arith
getenv-unsetenv name var ((other, value) ∷ env) = ground (
  arith,
  getenv-unsetenv name var env,
  Bool-cases (text_eq var other),
  Bool-cases (text_eq name other),
  text_eq-same var other name,
  text_eq-same name var other,
)

getenv-unset_all :
    (name : Text) (vars : List Text) (env : List (Text × Text))
    → getenv name (unset_all vars env) ≡ (if is_among name vars then none else getenv name env)
unfolding unset_all
getenv-unset_all name [] env = refl
getenv-unset_all name (var ∷ vars) env =
    ground (arith, getenv-unset_all name vars (unsetenv var env), getenv-unsetenv name var env)

print_variables-unset :
    (first : Bool) (vars : List Text) (env : List (Text × Text))
    → ((name : Text) → is_among name vars ≡ true → getenv name env ≡ none)
    → print_variables first vars env ≡ []
unfolding print_variables
print_variables-unset first [] env gone = refl
print_variables-unset first (var ∷ vars) env gone = ground (
  arith,
  gone var (ground (arith, text_eq_self var)),
  print_variables-unset first vars env (λ name e. gone name (ground (arith, e))),
)

-- Where the locale of the environment is not known, the constructor removes every variable that says
-- what the locale is and no other variable, so that nothing is left of what it printed.
check_locale_lem :
    (known : List (Text × Text) → Bool) (p : Process) (name : Text)
    → known p.environment ≡ false
    → let after = check_locale known p in
      (getenv name (after.0.environment)
        ≡ (if is_among name locale_variables then none else getenv name p.environment))
      × (print_environment (after.0) ≡ [])
      × (after.1 ≡ some (print_environment p))
unfolding check_locale set_c_locale print_environment
check_locale_lem known p name unknown = rw unknown (
  getenv-unset_all name locale_variables p.environment,
  print_variables-unset true locale_variables (unset_all locale_variables p.environment)
      (λ other e. rw (getenv-unset_all other locale_variables p.environment) (rw e refl)),
  refl,
)
