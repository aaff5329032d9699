-- ===== src/CtrlTool/Sessions.antt =====
-- service/tools/ctrlclient.cpp, `runInteractive`: which commands a session sends, and its exit code.
use libservice.Prelude.{
  Text, Bool, true, false, List, [], ◌∷◌, ◌≡◌, refl, arith, is_empty, if◌then◌else◌,
}
use libservice.Ctrl.Client.{Answer, lines, command_error, connection_error}
use libservice.NetClient.{Peer}
use libservice.CtrlTool.{after_command, interact}

-- The commands among the lines of the input.
abbrev pub commands : List Text → List Text
commands [] = []
commands (line ∷ input) = let rest = commands input in if is_empty line then rest else line ∷ rest

-- Whether the connection was lost.
abbrev pub is_lost : Answer → Bool
is_lost (lines ls) = false
is_lost (command_error name what) = false
is_lost connection_error = true

module _ {C : Type 0} (tool lost : Text) (peer : Peer C) where
  -- The peer is sent commands until the connection is lost: the peer then, and whether it was.
  abbrev pub talk : List Text → C → C × Bool
  talk [] c = (c, false)
  talk (command ∷ rest) c = elim (is_lost (peer command c).0) [
    | true ↦ ((peer command c).1, true)
    | false ↦ talk rest (peer command c).1
  ]

  -- An interactive session sends the lines of its input that are not empty, in their order, up to the
  -- first at which the connection is lost; an error that the server reports ends nothing. The exit code is
  -- 1 when the connection was lost and 0 otherwise.
  pub interact-talk :
      (history : Text) (input : List Text) (c : C)
      → let s = interact tool lost peer history input c in
        let t = talk (commands input) c in (s.peer ≡ t.0) × (s.code ≡ (if t.1 then 1 else 0))
  unfolding interact after_command
  interact-talk history [] c = (refl, refl)
  interact-talk history (line ∷ input) c =
      ground (arith, interact-talk history input c, interact-talk history input (peer line c).1)
