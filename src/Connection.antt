-- ===== src/Connection.antt =====
-- handleConnection and removeClient of pkg/sendspin/server.go, and the message dispatch of
-- pkg/sendspin/server_dispatch.go: how a connection is admitted, joins the group, is served and is
-- taken down. JSON and the websocket are left out: a hello and a message are what they decode to,
-- and a message that does not decode is not in the list. `registers`, `joins`, `unregisters` and
-- `leaves` are separate steps since no lock is held from one to the next. The closing of the encoders
-- and of the channel `done`, and the failure of the first Send, which a fresh channel takes, are left
-- out.
pub mod Admission
pub mod Takeover
pub mod Goodbye
mod Tests
use Prim.Native.String.{len}
use sendspin_go.Prelude.{
  ℕ, ◌+◌, Bool, true, false, ◌||◌, not, List, [], ◌∷◌, ◌++◌, Option, none, some, if◌then◌else◌, ltb,
  length,
}
use sendspin_go.Prelude.Int.{ℤ}
use sendspin_go.Prelude.Text.{String, str_eq}
use sendspin_go.Group.{
  Client, Event, client_state_changed, Group, publish, has_client, delete_client, add_client,
  remove_client,
}

-- protocol.ClientHello, without the capabilities
pub record ClientHello : Type 0 where
  pub client_id : String
  pub name : String
  pub supported_roles : List String

-- `clients` is the map of the server, by the clients' IDs: its entries, each with the ID of its
-- client.
pub record Server : Type 0 where
  pub is_shutdown : Bool
  pub clients : List Client
  pub group : Group

-- How handleConnection answers a hello. The code reads `isShutdown` before it reads the hello; here
-- the tests are taken together.
pub data Answer : Type 0 where
  shutting_down missing_fields too_large already_connected admitted : Answer

pub client_of : ℕ → ClientHello → Client
client_of pointer hello = record { pointer = pointer; id = hello.client_id; name = hello.name }

pub answer : Server → ClientHello → Answer
answer s hello =
    if s.is_shutdown
    then Answer.shutting_down
    else if str_eq hello.client_id "" || str_eq hello.name ""
    then Answer.missing_fields
    else if ltb 256 (len hello.client_id)
        || ltb 256 (len hello.name)
        || ltb 20 (length hello.supported_roles)
    then Answer.too_large
    else if has_client s.clients hello.client_id
    then Answer.already_connected
    else Answer.admitted

-- `s.clients[c.id] = c`, which replaces an entry of that ID
pub register_client : Server → Client → Server
register_client s c = record s { clients = c ∷ delete_client s.clients c.id }

-- removeClient, up to the unlock of the map of clients
pub unregister : Server → Client → Server
unregister s c = record s { clients = delete_client s.clients c.id }

pub with_group : Server → Option Group → Option Server
with_group s none = none
with_group s (some g) = some (record s { group = g })

pub data Step : Type 0 where
  registers : ℕ → ClientHello → Step
  joins unregisters leaves : Client → Step

-- A connection that is not admitted does nothing more.
pub connect : Server → Step → Option Server
unfolding client_of answer register_client unregister with_group
connect s (registers pointer hello) = elim (answer s hello) [
  | admitted ↦ some (register_client s (client_of pointer hello))
  | shutting_down ↦ some s
  | missing_fields ↦ some s
  | too_large ↦ some s
  | already_connected ↦ some s
]
connect s (joins c) = with_group s (add_client s.group c)
connect s (unregisters c) = some (unregister s c)
connect s (leaves c) = with_group s (remove_client s.group c)

pub connect_all : Server → List Step → Option Server
unfolding connect
connect_all s [] = some s
connect_all s (step ∷ steps) = elim (connect s step) [
  | none ↦ none
  | some s' ↦ connect_all s' steps
]

-- What a connected client has told, and what was sent or given on for it.
pub record Peer : Type 0 where
  pub client : Client
  pub state : String
  pub volume : ℤ
  pub muted : Bool
  pub goodbye_reason : String
  pub server_times : List (ℤ × ℤ × ℤ)
  pub commands : List (String × String)

pub record PlayerState : Type 0 where
  pub state : String
  pub volume : ℤ
  pub muted : Bool

-- The messages of a client. A client/time comes with the server's clock before and after it is
-- decoded, and with whether the send channel takes the answer; a client/command with its payloads by role family, in the order of the map's iteration.
pub data ClientMessage : Type 0 where
  client_time : ℤ → ℤ → ℤ → Bool → ClientMessage
  client_state : Option PlayerState → ClientMessage
  client_goodbye : String → ClientMessage
  client_command : List (String × String) → ClientMessage
  unknown_type : ClientMessage

-- `handles` tells for which role family a handler of messages is registered.
module _ (handles : String → Bool) where
  -- RouteMessage for each role family
  pub route_all : List (String × String) → List (String × String)
  route_all [] = []
  route_all ((role_family, payload) ∷ rest) =
      if handles role_family then (role_family, payload) ∷ route_all rest else route_all rest

  pub handle_client_message : Group → Peer → ClientMessage → Option (Group × Peer)
  unfolding route_all
  handle_client_message g p (client_time transmitted received sent has_room) = some (
    g,
    if has_room
        then record p { server_times = p.server_times ++ (transmitted, received, sent) ∷ [] }
        else p,
  )
  handle_client_message g p (client_state none) = some (g, p)
  handle_client_message g p (client_state (some player)) =
      elim (publish g (client_state_changed p.client player.state player.volume player.muted)) [
        | none ↦ none
        | some g' ↦
            some
              (g', record p { state = player.state; volume = player.volume; muted = player.muted })
      ]
  handle_client_message g p (client_goodbye reason) = some (g, record p { goodbye_reason = reason })
  handle_client_message g p (client_command payloads) =
      some (g, record p { commands = p.commands ++ route_all payloads })
  handle_client_message g p unknown_type = some (g, p)

  -- The read loop of handleConnection, up to the end of the connection, and its answer `retry`.
  pub serve_messages : Group → Peer → List ClientMessage → Option (Bool × Group × Peer)
  unfolding handle_client_message
  serve_messages g p [] = some (str_eq p.goodbye_reason "restart", g, p)
  serve_messages g p (message ∷ messages) = elim (handle_client_message g p message) [
    | none ↦ none
    | some (g', p') ↦ serve_messages g' p' messages
  ]
