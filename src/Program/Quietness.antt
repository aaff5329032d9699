-- ===== src/Program/Quietness.antt =====
-- Runs of service/program.cpp and service/service.cpp that do not go on with the start of a service.
use libservice.Prelude.{ℕ, suc, Bool, true, false, [], ◌∷◌, ◌≡◌, arith, if◌then◌else◌}
use libservice.Os.{
  Call, read_config, set_log_mask, log_file, pre_daemonize, start_service, log_console,
  log_file_truncate, log_time_precision, fork, run_service, Trace, Run, Returns, trace_of, M, ◌>>=◌,
  bind_rule,
}
use libservice.Prelude.{Bool, true, false, if◌then◌else◌, [], ◌∷◌}

-- The calls that go on with a start: reading configuration files, setting the log up, going to the
-- background, and the service's own start and run.
abbrev pub goes_further : Call → Bool
goes_further (read_config f) = true
goes_further (set_log_mask m) = true
goes_further (log_file f) = true
goes_further (pre_daemonize b) = true
goes_further (log_console b) = true
goes_further log_file_truncate = true
goes_further (log_time_precision p) = true
goes_further fork = true
goes_further start_service = true
goes_further run_service = true
goes_further _ = false

abbrev pub advances : Trace → ℕ
advances [] = 0
advances (c ∷ t) = if goes_further c then suc (advances t) else advances t

-- A run that makes none of these calls, and one that does not return either.
abbrev pub Quiet {ℓ} : {A : Type ℓ} → Trace → Run A → Type 0
Quiet h r = advances (trace_of r) ≡ advances h

abbrev pub Stops {ℓ} : {A : Type ℓ} → Trace → Run A → Type 0
Stops h r = Quiet h r × Returns (λ a t. ⊥) r

pub Quiet-bind {ℓ κ} :
    {A : Type ℓ} {B : Type κ} (m : M A) (f : A → M B) (h : Trace)
    → Quiet h (m h)
    → ((a : A) (t : Trace) → Quiet t (f a t))
    → Quiet h ((m >>= f) h)
Quiet-bind m f h q next =
    bind_rule (Quiet h) m f h (λ a t e. ground (arith, next a t)) (λ e t x. ground arith)
      (λ c t x. ground arith) (λ t x. ground arith)

pub Stops-next {ℓ κ} :
    {A : Type ℓ} {B : Type κ} (m : M A) (f : A → M B) (h : Trace)
    → Quiet h (m h)
    → ((a : A) (t : Trace) → Stops t (f a t))
    → Stops h ((m >>= f) h)
Stops-next m f h q next =
    bind_rule (Stops h) m f h (λ a t e. ground (arith, next a t)) (λ e t x. ground arith)
      (λ c t x. ground arith) (λ t x. ground arith)

pub Stops-after {ℓ κ} :
    {A : Type ℓ} {B : Type κ} (P : A → Type 0) (m : M A) (f : A → M B) (h : Trace)
    → Quiet h (m h)
    → Returns (λ a t. P a) (m h)
    → ((a : A) (t : Trace) → P a → Stops t (f a t))
    → Stops h ((m >>= f) h)
Stops-after P m f h q p next =
    bind_rule (Stops h) m f h (λ a t e. ground (arith, e, q, next a t (rw e at p)))
      (λ e t x. ground arith) (λ c t x. ground arith) (λ t x. ground arith)

pub Stops-bind {ℓ κ} :
    {A : Type ℓ} {B : Type κ} (m : M A) (f : A → M B) (h : Trace)
    → Stops h (m h)
    → Stops h ((m >>= f) h)
Stops-bind m f h q =
    bind_rule (Stops h) m f h (λ a t e. ground arith) (λ e t x. ground arith)
      (λ c t x. ground arith) (λ t x. ground arith)
