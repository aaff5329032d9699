-- ===== src/NetClient.antt =====
-- service/ctrlhandshake.cpp, service/netctrlclient.{hpp,cpp}, service/ctrlclient.cpp and
-- service/detail/ctrlclient.cpp: the control client over a network, and the choice of a client.
pub mod Handshake
use libservice.Prelude.{
  ℕ, suc, zero, ℤ, pos, negsuc, Text, lit, text_eq, Bool, true, false, not, Option, none, some,
  List, [], ◌∷◌, ◌++◌, ◌≤◌, ◌==◌, is_empty, if◌then◌else◌,
}
use libservice.Ctrl.Client.{Answer, lines, command_error, connection_error}

-- The characters of a challenge.
abbrev pub alphabet : Text
alphabet =
    lit "abcdefghijklmnopqrstuvwxyz"
    ++ (lit "ABCDEFGHIJKLMNOPQRSTUVWXYZ"
        ++ (lit "1234567890" ++ (lit "!@#$%^&*()" ++ lit "`~-_=+[{]}\\|;:'\",<.>/? ")))

-- `alphabet[i]`; past the end there is no character.
abbrev pub char_at : ℕ → Text → Option ℕ
char_at i [] = none
char_at zero (c ∷ s) = some c
char_at (suc i) (c ∷ s) = char_at i s

-- The loop of `ctrlChallenge`: `index` is the random distribution, asked once in each round.
unfoldable pub challenge_chars : (ℕ → ℕ) → ℕ → ℕ → Option Text
challenge_chars index i zero = some []
challenge_chars index i (suc rounds) =
    let rest = challenge_chars index (suc i) rounds in
    elim (char_at (index i) alphabet) [
      | none ↦ none
      | some c ↦ elim rest [ none ↦ none | some s ↦ some (c ∷ s) ]
    ]

unfoldable pub ctrl_challenge : (ℕ → ℕ) → Option Text
unfolding challenge_chars
ctrl_challenge index = challenge_chars index 0 32

-- `md5::hash_hex` of the utility library is a parameter.
unfoldable pub ctrl_response : (Text → Text) → Text → Text → Text
ctrl_response hash_hex challenge secret = hash_hex (challenge ++ b':' ∷ secret)

-- A peer: what it answers to a command, and its state after it.
abbrev pub Peer : Type 0 → Type 0
Peer C = Text → C → Answer × C

-- The handshake of the constructor of `Detail`. The front of an empty answer is undefined.
pub data Connected (C : Type 0) : Type 0 where
  connected : C → Connected C
  failed : Answer → Connected C
  undefined : Connected C

unfoldable pub finish_handshake : {C : Type 0} → Answer × C → Connected C
finish_handshake (lines ls, c) = connected c
finish_handshake (command_error name what, c) = failed (command_error name what)
finish_handshake (connection_error, c) = failed connection_error

unfoldable pub respond : {C : Type 0} → (Text → Text) → Text → Peer C → Answer × C → Connected C
unfolding ctrl_response finish_handshake
respond hash_hex secret peer (lines [], c) = undefined
respond hash_hex secret peer (lines (challenge ∷ ls), c) =
    finish_handshake (peer (ctrl_response hash_hex challenge secret) c)
respond hash_hex secret peer (command_error name what, c) = failed (command_error name what)
respond hash_hex secret peer (connection_error, c) = failed connection_error

unfoldable pub connect : {C : Type 0} → (Text → Text) → Text → Text → Peer C → C → Connected C
unfolding respond
connect hash_hex component secret peer c = respond hash_hex secret peer (peer component c)

-- What `utility::Uri` reads from a text; a port that is not given is negative.
pub record Uri : Type 0 where
  pub scheme : Text
  pub host : Text
  pub port : ℤ
  pub user : Text
  pub password : Text

pub record Params : Type 0 where
  pub host : Text
  pub port : ℕ
  pub component : Text
  pub secret : Text

abbrev pub default_port : ℕ
default_port = 2020

abbrev pub port_or_default : ℤ → ℕ
port_or_default (pos p) = p
port_or_default (negsuc n) = default_port

-- `NetCtrlClient::Params` of a URI, with `iequals` of Boost; none is an exception.
unfoldable pub params : (Text → Text → Bool) → Uri → Option Params
params iequals u =
    if iequals u.scheme (lit "ctrl")
    then some (record {
      host = u.host;
      port = port_or_default u.port;
      component = u.user;
      secret = u.password;
    })
    else none

pub data Kind : Type 0 where
  network file : Kind

-- `ctrlClientFactory`, with `istarts_with` of Boost.
unfoldable pub ctrl_client_factory : (Text → Text → Bool) → Text → Kind
ctrl_client_factory istarts_with uri = if istarts_with uri (lit "ctrl:") then network else file

-- The name of a client in its error messages.
abbrev pub client_name : Text → Text
client_name name = if is_empty name then lit "client" else name

-- `parseBoolean`; none is an exception.
unfoldable pub parse_boolean : Text → Option Bool
parse_boolean line =
    if text_eq line (lit "true")
    then some true
    else (if text_eq line (lit "false") then some false else none)
