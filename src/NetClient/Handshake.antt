-- ===== src/NetClient/Handshake.antt =====
-- service/ctrlhandshake.cpp and service/netctrlclient.cpp: the challenge, and the handshake.
use libservice.Prelude.{
  ℕ, suc, zero, ◌<◌, Text, Bool, true, not, ◌&&◌, Option, none, some, List, [], ◌∷◌, ◌++◌, ◌≡◌,
  refl, arith, length, All, ◌==◌,
}
use libservice.Ctrl.{Strings, StringLaws, newline, end_of_block}
use libservice.Ctrl.Client.{lines, command_reply}
use libservice.Ctrl.Lines.{IsLine, unlines}
use libservice.Ctrl.RoundTrip.{command_reply-unlines, NoError}
use libservice.NetClient.{
  alphabet, char_at, challenge_chars, ctrl_challenge, ctrl_response, Peer, connected, undefined,
  finish_handshake, respond, connect, client_name,
}

abbrev pub is_plain : ℕ → Bool
is_plain c = not (c == newline) && not (c == end_of_block)

abbrev all_plain : Text → Bool
all_plain [] = true
all_plain (c ∷ s) = is_plain c && all_plain s

-- A text of some length that fits into one line of the protocol.
abbrev pub IsChallenge : ℕ → Option Text → Type 0
IsChallenge n none = ⊥
IsChallenge n (some s) = (length s ≡ n) × IsLine s

char_at_lem :
    (i : ℕ) (s : Text)
    → i < length s
    → all_plain s ≡ true
    → (c : ℕ) × (char_at i s ≡ some c) × (is_plain c ≡ true)
char_at_lem i [] small plain = absurd (omega arith)
char_at_lem zero (c ∷ s) small plain = (c, refl, ground arith)
char_at_lem (suc i) (c ∷ s) small plain = char_at_lem i s (omega arith) (ground arith)

challenge_chars-IsChallenge :
    (index : ℕ → ℕ) (i rounds : ℕ)
    → ((k : ℕ) → index k < length alphabet)
    → IsChallenge rounds (challenge_chars index i rounds)
unfolding challenge_chars
challenge_chars-IsChallenge index i zero small = (refl, (tt, tt))
challenge_chars-IsChallenge index i (suc rounds) small =
    go (char_at (index i) alphabet) (char_at_lem (index i) alphabet (small i) refl)
      (challenge_chars index (suc i) rounds)
      (challenge_chars-IsChallenge index (suc i) rounds small)
  where
    go :
        (r : Option ℕ)
        → (c : ℕ) × (r ≡ some c) × (is_plain c ≡ true)
        → (rest : Option Text) → IsChallenge rounds rest
        → IsChallenge
            (suc rounds)
            (elim r [ none ↦ none | some c ↦ elim rest [ none ↦ none | some s ↦ some (c ∷ s) ] ])
    go none p rest q = absurd (ground (arith, p.1))
    go (some c) p none q = elim q [ ]
    go (some c) p (some s) q = ground (arith, p.1, p.2)

-- A challenge has 32 characters, none of which ends a line or a reply of the protocol, where the
-- random distribution keeps to its range.
ctrl_challenge-IsChallenge :
    (index : ℕ → ℕ) → ((k : ℕ) → index k < length alphabet) → IsChallenge 32 (ctrl_challenge index)
unfolding ctrl_challenge
ctrl_challenge-IsChallenge index small = challenge_chars-IsChallenge index 0 32 small

-- A peer at the other end of a connection: what it sends after a command, ended by the end of block.
abbrev pub peer_of : {C : Type 0} → Strings → Text → (Text → C → Text × C) → Peer C
peer_of lib name server command c = (
  (command_reply lib (client_name name) (some ((server command c).0 ++ end_of_block ∷ []))).0,
  (server command c).1,
)

module _ (lib : Strings) (laws : StringLaws lib) {C : Type 0} (hash_hex : Text → Text)
    (component secret : Text) (server : Text → C → Text × C) where
  reply-lines :
      (command : Text) (ls : List Text) (c d : C)
      → server command c ≡ (unlines ls, d)
      → All IsLine ls
      → NoError lib laws ls
      → peer_of lib component server command c ≡ (lines ls, d)
  reply-lines command ls c d e h k =
      rw (e, command_reply-unlines lib laws (client_name component) ls [] h k) refl

  -- A server that answers the component with a challenge is sent the hash of the challenge and the
  -- secret, and the client is connected when that is answered without an error, whatever lines come.
  connect-handshake :
      (challenge : Text) (ls : List Text) (c d e : C)
      → server component c ≡ (unlines (challenge ∷ []), d)
      → IsLine challenge
      → NoError lib laws (challenge ∷ [])
      → server (hash_hex (challenge ++ b':' ∷ secret)) d ≡ (unlines ls, e)
      → All IsLine ls
      → NoError lib laws ls
      → connect hash_hex component secret (peer_of lib component server) c ≡ connected e
  unfolding connect respond finish_handshake ctrl_response
  connect-handshake challenge ls c d e asked line plain answered replied plains =
      rw
        (
          reply-lines component (challenge ∷ []) c d asked (line, tt) plain,
          reply-lines (hash_hex (challenge ++ b':' ∷ secret)) ls d e answered replied plains,
        )
        refl

  -- A server that answers the component with an empty block makes the client read the front of an
  -- empty list.
  connect-empty :
      (c d : C)
      → server component c ≡ ([], d)
      → connect hash_hex component secret (peer_of lib component server) c ≡ undefined
  unfolding connect respond
  connect-empty c d e = rw (reply-lines component [] c d e tt tt) refl
