-- ===== src/Verbosity.antt =====
-- service/verbosity.hpp: how often `--verbose` is given.
use libservice.Prelude.{ℕ, zero, suc, ◌+◌, Option, none, some, ◌≡◌, refl, arith}

-- `validate`: each occurrence of the option raises the level.
unfoldable pub validate : Option ℕ → Option ℕ
validate none = some 1
validate (some level) = some (level + 1)

-- What Boost.Program_options holds after so many occurrences.
unfoldable pub validated : ℕ → Option ℕ
unfolding validate
validated zero = none
validated (suc n) = validate (validated n)

-- `verbosityConfigure`.
unfoldable pub verbosity_configure : Option ℕ → ℕ
verbosity_configure none = 0
verbosity_configure (some level) = level

-- The verbosity is the number of occurrences.
verbosity_configure-validated : (n : ℕ) → verbosity_configure (validated n) ≡ n
unfolding validated validate verbosity_configure
verbosity_configure-validated zero = refl
verbosity_configure-validated (suc n) = ground (arith, verbosity_configure-validated n)
