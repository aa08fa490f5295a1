-- ===== src/Handshake/Outcome.antt =====
-- The outcome of the handshake of pkg/protocol/client.go, and the roles that a server of
-- pkg/sendspin then activates.
use sendspin_go.Prelude.{
  ℕ, ◌≡◌, refl, Bool, true, false, [], ◌∷◌, Option, none, some, arith, if◌then◌else◌, ◌&&◌, not,
}
use sendspin_go.Prelude.Text.{str_eq}
use sendspin_go.Receiver.Streaming.{contains_role}
use sendspin_go.Player.{first_report}
use sendspin_go.Handshake.{is_set, ClientConfig, client_hello, Frame, hello, state, handshake}

-- The server/hello in a frame.
abbrev pub hello_in : Option Frame → Option (ℕ × ℕ)
hello_in none = none
hello_in (some f) = elim f.envelope [
  | none ↦ none
  | some (t, payload) ↦
      if str_eq t "server/hello"
      then elim payload [ some (some parsed) ↦ some (parsed, f.raw) | _ ↦ none ]
      else none
]

-- Where client/hello cannot be sent, nothing is sent and nothing read. Otherwise the handshake ends
-- without an error exactly if the answer is a server/hello and the first report can be sent; the
-- server/hello is kept exactly if the answer is one, also where the report cannot be sent; and the
-- report is sent, after client/hello, exactly if there is no error. Client/hello has a player block
-- exactly if its roles have player@v1.
pub handshake_lem :
    (config : ClientConfig) (answer : Option Frame) (sends : Bool)
    → (let h = handshake config true answer sends in
        (is_set h.error ≡ not (is_set (hello_in answer) && sends))
        × (h.server_hello ≡ hello_in answer)
        × (h.sent
            ≡ hello (client_hello config)
              ∷ (if is_set h.error then [] else state first_report ∷ []))
        × ((handshake config false answer sends).sent ≡ [])
        × ((handshake config false answer sends).server_hello ≡ none)
        × (is_set (client_hello config).player_support
            ≡ contains_role (client_hello config).supported_roles "player@v1"))
unfolding handshake client_hello
handshake_lem config answer sends =
    (ground arith, ground arith, ground arith, refl, refl, ground arith)
