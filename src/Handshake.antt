-- ===== src/Handshake.antt =====
-- The handshake of pkg/protocol/client.go: client/hello, server/hello and the first client/state. A
-- block that the code only passes on is its number; what the connection and encoding/json answer are
-- arguments.
pub mod Outcome
use sendspin_go.Prelude.{
  ℕ, Bool, true, false, ◌&&◌, List, [], ◌∷◌, ◌++◌, Option, none, some, if◌then◌else◌, not,
}
use sendspin_go.Prelude.Text.{String, str_eq}
use sendspin_go.Receiver.Streaming.{contains_role}
use sendspin_go.Player.{Report, first_report}

-- Whether a pointer is not nil.
abbrev pub is_set {ℓ} : {A : Type ℓ} → Option A → Bool
is_set none = false
is_set (some x) = true

pub record ClientConfig : Type 0 where
  pub client_id : String
  pub name : String
  pub version : ℕ
  pub device_info : ℕ
  pub player_support : ℕ
  pub artwork_support : Option ℕ
  pub visualizer_support : Option ℕ
  pub supported_roles : List String

pub record Hello : Type 0 where
  pub client_id : String
  pub name : String
  pub version : ℕ
  pub supported_roles : List String
  pub device_info : ℕ
  pub player_support : Option ℕ
  pub artwork_support : Option ℕ
  pub visualizer_support : Option ℕ

unfoldable pub build_supported_roles : ClientConfig → List String
build_supported_roles config = elim config.supported_roles [
  | r ∷ rs ↦ r ∷ rs
  | [] ↦
      let roles = "player@v1" ∷ "metadata@v1" ∷ "controller@v1" ∷ [] in
      let artwork = if is_set config.artwork_support then "artwork@v1" ∷ [] else [] in
      let visualizer = if is_set config.visualizer_support then "visualizer@v1" ∷ [] else [] in
      (roles ++ artwork) ++ visualizer
]

unfoldable pub client_hello : ClientConfig → Hello
unfolding build_supported_roles
client_hello config = record {
  client_id = config.client_id;
  name = config.name;
  version = config.version;
  supported_roles = build_supported_roles config;
  device_info = config.device_info;
  player_support =
      if contains_role (build_supported_roles config) "player@v1"
      then some config.player_support
      else none;
  artwork_support = config.artwork_support;
  visualizer_support = config.visualizer_support;
}

-- The frame that ReadMessage returns: its bytes' number, and the envelope that encoding/json reads in
-- it: the type, and the payload marshalled again and read as a server/hello.
pub record Frame : Type 0 where
  pub raw : ℕ
  pub envelope : Option (String × Option (Option ℕ))

pub data HandshakeError : Type 0 where
  hello_unsent hello_unread hello_unparsed unexpected_type payload_unmarshalled payload_undecoded
        state_unsent :
      HandshakeError

pub data Sent : Type 0 where
  hello : Hello → Sent
  state : Report → Sent

-- What the handshake leaves: the messages sent, the server/hello that ServerHello and RawServerHello
-- return, and the error.
pub record Handshake : Type 0 where
  pub sent : List Sent
  pub server_hello : Option (ℕ × ℕ)
  pub error : Option HandshakeError

abbrev fails : List Sent → HandshakeError → Handshake
fails sent e = record { sent = sent; server_hello = none; error = some e }

-- `hello_sent` and `state_sent` tell whether sendJSON takes the message.
unfoldable pub handshake : ClientConfig → Bool → Option Frame → Bool → Handshake
unfolding client_hello
handshake config hello_sent answer state_sent =
    let hellos = hello (client_hello config) ∷ [] in
    if not hello_sent then fails [] hello_unsent else elim answer [
      | none ↦ fails hellos hello_unread
      | some frame ↦ elim frame.envelope [
        | none ↦ fails hellos hello_unparsed
        | some (message_type, payload) ↦
            if not (str_eq message_type "server/hello")
            then fails hellos unexpected_type
            else elim payload [
              | none ↦ fails hellos payload_unmarshalled
              | some none ↦ fails hellos payload_undecoded
              | some (some parsed) ↦
                  if state_sent
                  then record {
                    sent = hellos ++ state first_report ∷ [];
                    server_hello = some (parsed, frame.raw);
                    error = none;
                  }
                  else record {
                    sent = hellos;
                    server_hello = some (parsed, frame.raw);
                    error = some state_unsent;
                  }
            ]
      ]
    ]
