-- ===== src/Persona/Elevation.antt =====
-- service/persona.hpp, `runElevated`: a call with the rights that the process was started with.
use libservice.Prelude.{ℕ, Option, none, some, List, [], ◌∷◌, ◌≡◌, arith}
use libservice.Os.{
  Env, Identity, set_effective_persona, Trace, trace_of, ok, M, ◌>>◌, throw, catch, attempt, Run,
  done, threw, quit, undefined, Returns, Throws,
}
use libservice.Persona.{Persona}

-- `guardedCall` of the utility library is a parameter: what is done before, the call, and what is done
-- after it.
abbrev pub Guard : Type 0
Guard = M (Unit {0}) → M (Unit {0}) → M (Unit {0}) → M (Unit {0})

module _ (env : Env) (guarded_call : Guard) where
  abbrev pub become : Identity → M (Unit {0})
  become who = attempt env (set_effective_persona who.uid who.gid)

  -- The call's value is dropped, so that it has none here.
  unfoldable pub run_elevated : Option Persona → M (Unit {0}) → M (Unit {0})
  run_elevated none call = call
  run_elevated (some p) call = guarded_call (become p.start) call (become p.running)

  -- What `runElevated` relies on: the last part is done when the call returns and when it throws, and
  -- not when the first part threw.
  abbrev pub Guards : Type 0
  Guards =
      (before call after : M (Unit {0})) (h : Trace)
      → guarded_call before call after h
        ≡ (before >> (catch call (λ e. after >> throw e) >> after)) h

  -- The identities that the process became, newest first.
  abbrev pub became : Trace → List (ℕ × ℕ)
  became [] = []
  became (set_effective_persona uid gid ∷ t) = (uid, gid) ∷ became t
  became (_ ∷ t) = became t

  abbrev pub pair : Identity → ℕ × ℕ
  pair who = (who.uid, who.gid)

  -- The call itself becomes nobody else.
  abbrev pub Plain : M (Unit {0}) → Type 0
  Plain call = (t : Trace) → became (trace_of (call t)) ≡ became t

  -- The process became the start identity, and is back at the running one.
  abbrev pub IsBack : Persona → Trace → Trace → Type 0
  IsBack p h t = became t ≡ pair p.running ∷ pair p.start ∷ became h

  -- What becomes of a run of the call: whether it returns or throws, the process then becomes the
  -- running identity.
  abbrev pub then_back : Persona → Run (Unit {0}) → Run (Unit {0})
  then_back p (done u t) = done u (set_effective_persona p.running.uid p.running.gid ∷ t)
  then_back p (threw e t) = threw e (set_effective_persona p.running.uid p.running.gid ∷ t)
  then_back p (quit c t) = quit c t
  then_back p (undefined t) = undefined t

  -- The trace after the switch to the start identity.
  abbrev pub elevated : Persona → Trace → Trace
  elevated p h = set_effective_persona p.start.uid p.start.gid ∷ h

  -- A call with elevated rights is made once, directly after the switch to the identity that the
  -- process was started with, what it returns or throws is what the caller gets, and afterwards the
  -- process is the running identity again, whether the call returns or throws, where every switch
  -- succeeds, the call makes none itself, and `guardedCall` does its last part in both cases.
  pub run_elevated-IsBack :
      (p : Persona) (call : M (Unit {0})) (h : Trace)
      → Guards
      → ((t : Trace) (uid gid : ℕ) → env.succeeds t (set_effective_persona uid gid) ≡ ok tt)
      → Plain call
      → (run_elevated (some p) call h ≡ then_back p (call (elevated p h)))
        × Returns (λ u t. IsBack p h t) (run_elevated (some p) call h)
        × Throws (λ e t. IsBack p h t) (run_elevated (some p) call h)
  unfolding run_elevated
  run_elevated-IsBack p call h guards succeeds plain =
      let started : Trace = elevated p h in
      rw (guards (become p.start) call (become p.running) h) (
        ground (
          arith,
          succeeds h p.start.uid p.start.gid,
          plain started,
          succeeds (trace_of (call started)) p.running.uid p.running.gid,
        ))
