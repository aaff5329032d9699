-- ===== src/Os/Rules.antt =====
-- Rules for what is said of a run: for a sequence, for a handler, and for what follows at the end.
use libservice.Prelude.{ℤ, ◌≡◌, refl}
use libservice.Os.Calls.{Error, Trace}
use libservice.Os.Runs.{
  Run, done, threw, quit, undefined, M, ◌>>=◌, catch, Completes, Returns, Fails,
}

-- A handler's cases, for a proof in which the body stays shut.
pub catch_rule {ℓ} :
    {A : Type ℓ} (P : Run A → Type 0) (m : M A) (f : Error → M A) (h : Trace)
    → ((a : A) (t : Trace) → m h ≡ done a t → P (done a t))
    → ((e : Error) (t : Trace) → m h ≡ threw e t → P (f e t))
    → ((c : ℤ) (t : Trace) → m h ≡ quit c t → P (quit c t))
    → ((t : Trace) → m h ≡ undefined t → P (undefined t))
    → P (catch m f h)
catch_rule {A} P m f h a b c d = go (m h) refl
  where
    go :
        (r : Run A)
        → m h ≡ r
        → P (elim r [
          | done a t ↦ done a t
          | threw e t ↦ f e t
          | quit c t ↦ quit c t
          | undefined t ↦ undefined t
        ])
    go (done v t) e = a v t e
    go (threw v t) e = b v t e
    go (quit v t) e = c v t e
    go (undefined t) e = d t e

-- The cases of a sequence, for a proof in which the first part stays shut.
pub bind_rule {ℓ κ} :
    {A : Type ℓ} {B : Type κ} (P : Run B → Type 0) (m : M A) (f : A → M B) (h : Trace)
    → ((a : A) (t : Trace) → m h ≡ done a t → P (f a t))
    → ((e : Error) (t : Trace) → m h ≡ threw e t → P (threw e t))
    → ((c : ℤ) (t : Trace) → m h ≡ quit c t → P (quit c t))
    → ((t : Trace) → m h ≡ undefined t → P (undefined t))
    → P ((m >>= f) h)
bind_rule {A} P m f h a b c d = go (m h) refl
  where
    go :
        (r : Run A)
        → m h ≡ r
        → P (elim r [
          | done a t ↦ f a t
          | threw e t ↦ threw e t
          | quit c t ↦ quit c t
          | undefined t ↦ undefined t
        ])
    go (done v t) e = a v t e
    go (threw v t) e = b v t e
    go (quit v t) e = c v t e
    go (undefined t) e = d t e

-- A sequence returns as its parts do.
pub Returns-bind {ℓ κ} :
    {A : Type ℓ} {B : Type κ} (P : A → Trace → Type 0) (Q : B → Trace → Type 0) (m : M A)
    (f : A → M B) (h : Trace)
    → Returns P (m h)
    → ((a : A) (t : Trace) → P a t → Returns Q (f a t))
    → Returns Q ((m >>= f) h)
Returns-bind {A} P Q m f h p next = go (m h) p
  where
    go :
        (r : Run A)
        → Returns P r
        → Returns Q (elim r [
          | done a t ↦ f a t
          | threw e t ↦ threw e t
          | quit c t ↦ quit c t
          | undefined t ↦ undefined t
        ])
    go (done a t) q = next a t q
    go (threw e t) q = tt
    go (quit c t) q = tt
    go (undefined t) q = tt

-- A caught run returns as the run and the handler do.
pub Returns-catch {ℓ} :
    {A : Type ℓ} (P : A → Trace → Type 0) (m : M A) (f : Error → M A) (h : Trace)
    → Returns P (m h)
    → ((e : Error) (t : Trace) → Returns P (f e t))
    → Returns P (catch m f h)
Returns-catch {A} P m f h p handled = go (m h) p
  where
    go :
        (r : Run A)
        → Returns P r
        → Returns P (elim r [
          | done a t ↦ done a t
          | threw e t ↦ f e t
          | quit c t ↦ quit c t
          | undefined t ↦ undefined t
        ])
    go (done a t) q = q
    go (threw e t) q = handled e t
    go (quit c t) q = tt
    go (undefined t) q = tt

-- What follows returns so whatever the first part gives.
pub Returns-next {ℓ κ} :
    {A : Type ℓ} {B : Type κ} (P : B → Trace → Type 0) (m : M A) (f : A → M B) (h : Trace)
    → ((a : A) (t : Trace) → Returns P (f a t))
    → Returns P ((m >>= f) h)
Returns-next P m f h next =
    bind_rule (Returns P) m f h (λ a t e. next a t) (λ e t x. tt) (λ c t x. tt) (λ t x. tt)

-- What follows from what holds at the end.
pub Returns-weaken {ℓ κ μ} :
    {A : Type ℓ} {P : A → Trace → Type κ} {Q : A → Trace → Type μ} (r : Run A)
    → Returns P r
    → ((a : A) (t : Trace) → P a t → Q a t)
    → Returns Q r
Returns-weaken (done a t) p next = next a t p
Returns-weaken (threw e t) p next = tt
Returns-weaken (quit c t) p next = tt
Returns-weaken (undefined t) p next = tt

pub Fails-weaken {ℓ} :
    {A : Type ℓ} {P Q : Error → Trace → Type 0} (r : Run A)
    → Fails P r
    → ((e : Error) (t : Trace) → P e t → Q e t)
    → Fails Q r
Fails-weaken (threw e t) p next = next e t p
Fails-weaken (done a t) p next = p
Fails-weaken (quit c t) p next = p
Fails-weaken (undefined t) p next = p

-- What holds of a run that returns, from how it returns.
pub Returns-of {ℓ} :
    {A : Type ℓ} {P : A → Trace → Type 0} (r : Run A)
    → ((a : A) (t : Trace) → r ≡ done a t → P a t)
    → Returns P r
Returns-of (done a t) f = f a t refl
Returns-of (threw e t) f = tt
Returns-of (quit c t) f = tt
Returns-of (undefined t) f = tt

pub Completes-bind {ℓ κ} :
    {A : Type ℓ} {B : Type κ} (P : A → Trace → Type 0) (Q : B → Trace → Type 0) (m : M A)
    (f : A → M B) (h : Trace)
    → Completes P (m h)
    → ((a : A) (t : Trace) → P a t → Completes Q (f a t))
    → Completes Q ((m >>= f) h)
Completes-bind {A} P Q m f h p next = go (m h) p
  where
    go :
        (r : Run A)
        → Completes P r
        → Completes Q (elim r [
          | done a t ↦ f a t
          | threw e t ↦ threw e t
          | quit c t ↦ quit c t
          | undefined t ↦ undefined t
        ])
    go (done a t) q = next a t q
    go (threw e t) q = absurd q
    go (quit c t) q = absurd q
    go (undefined t) q = absurd q

-- A run that returns, with what holds when it does.
pub Completes-returns {ℓ} :
    {A : Type ℓ} (P Q : A → Trace → Type 0) (r : Run A)
    → Completes P r
    → Returns Q r
    → Completes Q r
Completes-returns P Q (done a t) p q = q
Completes-returns P Q (threw e t) p q = p
Completes-returns P Q (quit c t) p q = p
Completes-returns P Q (undefined t) p q = p
