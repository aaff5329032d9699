-- ===== src/Os/Runs.antt =====
-- The runs of the program: how they end, how they are put together, and what is said of them.
use libservice.Prelude.{ℤ, ◌∷◌}
use libservice.Os.Calls.{Error, system_error, immediate_exit, Call, Trace, Answer, ok, fail, Env}

-- How a run ends, with the trace at that point.
pub data Run {ℓ} (A : Type ℓ) : Type ℓ where
  done : A → Trace → Run A
  threw : Error → Trace → Run A
  quit : ℤ → Trace → Run A
  -- The behaviour is undefined from here on.
  undefined : Trace → Run A

abbrev pub M {ℓ} : Type ℓ → Type ℓ
M A = Trace → Run A

infixl 5 ◌>>=◌ ◌>>◌
abbrev pub ◌>>=◌ {ℓ κ} : {A : Type ℓ} {B : Type κ} → M A → (A → M B) → M B
◌>>=◌ m f h = elim (m h) [
  | done a t ↦ f a t
  | threw e t ↦ threw e t
  | quit c t ↦ quit c t
  | undefined t ↦ undefined t
]

abbrev pub ◌>>◌ {ℓ κ} : {A : Type ℓ} {B : Type κ} → M A → M B → M B
m >> k = m >>= λ _. k

abbrev pub pure {ℓ} : {A : Type ℓ} → A → M A
pure a h = done a h

abbrev pub throw {ℓ} : {A : Type ℓ} → Error → M A
throw e h = threw e h

-- `_exit`.
abbrev pub exit_now {ℓ} : {A : Type ℓ} → ℤ → M A
exit_now c h = quit c h

-- `try { m } catch`.
abbrev pub catch {ℓ} : {A : Type ℓ} → M A → (Error → M A) → M A
catch m f h = elim (m h) [
  | done a t ↦ done a t
  | threw e t ↦ f e t
  | quit c t ↦ quit c t
  | undefined t ↦ undefined t
]

-- `try { m } catch (const std::exception&)`: `immediate_exit` is no `std::exception`.
abbrev pub catch_std {ℓ} : {A : Type ℓ} → M A → M A → M A
catch_std m f = catch m (λ e. elim e [ immediate_exit c ↦ throw (immediate_exit c) | _ ↦ f ])

-- A call whose answer is the environment's.
abbrev pub ask {ℓ} : {A : Type ℓ} → Call → (Trace → A) → M A
ask c f h = done (f h) (c ∷ h)

-- A call that tells nothing.
abbrev pub tell : Call → M (Unit {0})
tell c h = done tt (c ∷ h)

-- A value that depends on the calls so far and makes no call worth recording.
abbrev pub look {ℓ} : {A : Type ℓ} → (Trace → A) → M A
look f h = done (f h) h

-- A call that throws `system_error` when it fails.
abbrev pub checked {ℓ} : {A : Type ℓ} → Call → (Trace → Answer A) → M A
checked c f h = elim (f h) [ ok a ↦ done a (c ∷ h) | fail e ↦ threw (system_error e) (c ∷ h) ]

-- What holds of the value and the trace when a run returns.
abbrev pub Returns {ℓ κ} : {A : Type ℓ} → (A → Trace → Type κ) → Run A → Type κ
Returns P (done a t) = P a t
Returns P (threw e t) = Unit
Returns P (quit c t) = Unit
Returns P (undefined t) = Unit

-- What holds of the exception and the trace when a run throws.
abbrev pub Throws {ℓ κ} : {A : Type ℓ} → (Error → Trace → Type κ) → Run A → Type κ
Throws P (done a t) = Unit
Throws P (threw e t) = P e t
Throws P (quit c t) = Unit
Throws P (undefined t) = Unit

-- The run throws, and this holds of the exception and the trace.
abbrev pub Fails {ℓ} : {A : Type ℓ} → (Error → Trace → Type 0) → Run A → Type 0
Fails P (threw e t) = P e t
Fails P (done a t) = ⊥
Fails P (quit c t) = ⊥
Fails P (undefined t) = ⊥

-- The run returns, and this holds of the value and the trace.
abbrev pub Completes {ℓ} : {A : Type ℓ} → (A → Trace → Type 0) → Run A → Type 0
Completes P (done a t) = P a t
Completes P (threw e t) = ⊥
Completes P (quit c t) = ⊥
Completes P (undefined t) = ⊥

-- The trace at the end, however the run ends.
abbrev pub trace_of {ℓ} : {A : Type ℓ} → Run A → Trace
trace_of (done a t) = t
trace_of (threw e t) = t
trace_of (quit c t) = t
trace_of (undefined t) = t

-- The run returns or throws: it neither leaves the process by `_exit` nor is undefined.
abbrev pub Settles {ℓ} : {A : Type ℓ} → Run A → Type 0
Settles (done a t) = Unit
Settles (threw e t) = Unit
Settles (quit c t) = ⊥
Settles (undefined t) = ⊥

-- A call without a value that throws `system_error` when it fails, and one whose failure is ignored.
abbrev pub attempt : Env → Call → M (Unit {0})
attempt env c = checked c (λ h. env.succeeds h c)

abbrev pub try_call : Env → Call → M (Answer (Unit {0}))
try_call env c = ask c (λ h. env.succeeds h c)
