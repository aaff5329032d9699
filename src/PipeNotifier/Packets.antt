-- ===== src/PipeNotifier/Packets.antt =====
-- service/pipenotifier.cpp over a pipe that keeps packets in their order.
use libservice.Prelude.{
  ℕ, suc, ◌≤◌, Text, Bool, true, false, Option, none, some, List, [], ◌∷◌, ◌++◌, ◌≡◌, ◌==◌,
  if◌then◌else◌,
}
use libservice.Os.{Env, read_packet, write_packet, Trace, Answer, ok, fail, ◌>>=◌}
use libservice.PipeNotifier.{eintr}

abbrev pub rest_of : List Text → List Text
rest_of [] = []
rest_of (s ∷ ss) = ss

abbrev is_ok {ℓ} : {A : Type ℓ} → Answer A → Bool
is_ok (ok a) = true
is_ok (fail e) = false

abbrev pub is_interrupted {ℓ} : {A : Type ℓ} → Answer A → Bool
is_interrupted (ok s) = false
is_interrupted (fail e) = e == eintr

module _ (env : Env) (r w : ℕ) where
  -- The packets in the pipe: those written and not yet read.
  abbrev pub unread : Trace → List Text
  unread [] = []
  unread (write_packet fd s ∷ t) =
      let before = unread t in
      if fd == w then (if is_ok (env.sends t fd s) then before ++ s ∷ [] else before) else before
  unread (read_packet fd ∷ t) =
      let before = unread t in
      if fd == r then (if is_ok (env.receives t fd) then rest_of before else before) else before
  unread (_ ∷ t) = unread t

  -- What a pipe of packets does: a read gives the oldest packet.
  abbrev pub IsPipe : Type 0
  IsPipe = (t : Trace) (s : Text) → env.receives t r ≡ ok s → unread t ≡ s ∷ rest_of (unread t)

  -- How often the pipe was read.
  abbrev pub reads_in : Trace → ℕ
  reads_in [] = 0
  reads_in (read_packet fd ∷ t) = suc (reads_in t)
  reads_in (_ ∷ t) = reads_in t

  -- How often it was written to, also by writes that failed.
  abbrev pub writes_in : Trace → ℕ
  writes_in [] = 0
  writes_in (write_packet fd s ∷ t) = suc (writes_in t)
  writes_in (_ ∷ t) = writes_in t

  -- The text was put behind what was in the pipe.
  abbrev pub Put : Text → Trace → Bool → Trace → Type 0
  Put s h b t = (b ≡ true) × (unread t ≡ unread h ++ s ∷ []) × (reads_in t ≡ reads_in h)

  -- After so many writes and reads no signal interrupts any more.
  abbrev pub CalmWrites : ℕ → Type 0
  CalmWrites n = (t : Trace) (s : Text) → n ≤ writes_in t → is_interrupted (env.sends t w s) ≡ false

  abbrev pub CalmReads : ℕ → Type 0
  CalmReads n = (t : Trace) → n ≤ reads_in t → is_interrupted (env.receives t r) ≡ false

  -- A packet was read: the oldest one.
  abbrev pub Got : List Text → Option Text → Trace → Type 0
  Got before none t = ⊥
  Got before (some s) t = before ≡ s ∷ unread t
