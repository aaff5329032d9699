-- ===== src/Os/Measures.antt =====
-- Runs that leave a value alone that is read off the trace, such as how often a call was made.
use libservice.Prelude.{◌≡◌, arith}
use libservice.Os.Calls.{Error, Trace}
use libservice.Os.Runs.{Run, M, ◌>>=◌, catch, trace_of}
use libservice.Os.Rules.{bind_rule, catch_rule}

abbrev pub Same {ℓ} : {N : Type 0} {A : Type ℓ} → (Trace → N) → Trace → Run A → Type 0
Same n h r = n (trace_of r) ≡ n h

pub Same-bind {ℓ κ} :
    {N : Type 0} {A : Type ℓ} {B : Type κ} (n : Trace → N) (m : M A) (f : A → M B) (h : Trace)
    → Same n h (m h)
    → ((a : A) (t : Trace) → Same n t (f a t))
    → Same n h ((m >>= f) h)
Same-bind n m f h q next =
    bind_rule (Same n h) m f h (λ a t e. ground (arith, next a t)) (λ e t x. ground arith)
      (λ c t x. ground arith) (λ t x. ground arith)

pub Same-catch {ℓ} :
    {N : Type 0} {A : Type ℓ} (n : Trace → N) (m : M A) (f : Error → M A) (h : Trace)
    → Same n h (m h)
    → ((e : Error) (t : Trace) → Same n t (f e t))
    → Same n h (catch m f h)
Same-catch n m f h q handled =
    catch_rule (Same n h) m f h (λ a t e. ground (arith, e, q))
      (λ e t x. ground (arith, handled e t)) (λ c t x. ground (arith, x, q))
      (λ t x. ground (arith, x, q))
