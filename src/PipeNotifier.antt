-- ===== src/PipeNotifier.antt =====
-- service/pipenotifier.cpp: whole texts sent from one process to another through a pipe.
pub mod Packets
use libservice.Prelude.{
  ℕ, zero, suc, ℤ, pos, negsuc, Text, Bool, true, false, Option, none, some, List, [], ◌∷◌, ◌==◌,
  ltb, length, if◌then◌else◌,
}
use libservice.Os.{
  Env, runtime_error, system_error, open_packet_pipe, read_packet, write_packet, is_running,
  close_fd, Answer, ok, fail, M, ◌>>=◌, ◌>>◌, pure, throw, ask, tell, checked,
}

abbrev pub eintr : ℕ
eintr = 4

-- `PIPE_BUF` of Linux: what is written in one piece.
abbrev pub pipe_buf : ℕ
pipe_buf = 4096

module _ (env : Env) where
  -- The constructor: the two ends.
  unfoldable pub construct : M (ℕ × ℕ)
  construct = checked open_packet_pipe (λ h. env.pipes h)

  unfoldable pub destroy : ℕ × ℕ → M (Unit {0})
  destroy fds = do tell (close_fd fds.0); tell (close_fd fds.1)

  -- An interrupted call is made again while the runnable is running.
  abbrev pub again_if {ℓ} : {A : Type ℓ} → M A → Bool → M A
  again_if again true = again
  again_if again false = throw runtime_error

  abbrev pub failed {ℓ} : {A : Type ℓ} → M A → ℕ → M A
  failed again e =
      if e == eintr
      then (do b ← ask is_running env.running; again_if again b)
      else throw (system_error e)

  unfoldable pub received : M (Option Text) → Answer Text → M (Option Text)
  received again (ok s) = pure (some s)
  received again (fail e) = failed again e

  -- `master`: one packet. `none` when the fuel runs out.
  unfoldable pub master : ℕ → ℕ → M (Option Text)
  unfolding received
  master zero fd = pure none
  master (suc fuel) fd =
      let again = master fuel fd in
      do r ← ask (read_packet fd) (λ h. env.receives h fd); received again r

  unfoldable pub sent : M Bool → Answer (Unit {0}) → M Bool
  sent again (ok u) = pure true
  sent again (fail e) = failed again e

  unfoldable pub send : ℕ → ℕ → Text → M Bool
  unfolding sent
  send zero fd s = pure false
  send (suc fuel) fd s =
      let again = send fuel fd s in
      do r ← ask (write_packet fd s) (λ h. env.sends h fd s); sent again r

  -- `slave`: a text that is too long is refused. `false` when the fuel runs out.
  unfoldable pub slave : ℕ → ℕ → Text → M Bool
  unfolding send
  slave fuel fd s = if ltb pipe_buf (length s) then throw runtime_error else send fuel fd s
