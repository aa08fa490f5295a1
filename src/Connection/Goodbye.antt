-- ===== src/Connection/Goodbye.antt =====
-- The read loop of handleConnection and handleClientMessage, pkg/sendspin/server_dispatch.go.
use mathlib.Core.List.{append-nil, append_assoc}
use sendspin_go.Prelude.{
  ◌≡◌, refl, ◌∙◌, Bool, true, false, List, [], ◌∷◌, ◌++◌, none, some, arith, if◌then◌else◌,
}
use sendspin_go.Prelude.Text.{String, str_eq}
use sendspin_go.Group.{Group, Client, Event, client_state_changed}
use sendspin_go.Group.Invariant.{IsValid, Published, publish_lem}
use sendspin_go.Connection.{
  Peer, PlayerState, ClientMessage, client_time, client_state, client_goodbye, client_command,
  unknown_type, route_all, handle_client_message, serve_messages,
}

-- The reason of the last goodbye, if there is one.
abbrev pub last_goodbye : String → List ClientMessage → String
last_goodbye reason [] = reason
last_goodbye reason (client_time transmitted received sent has_room ∷ ms) = last_goodbye reason ms
last_goodbye reason (client_state player ∷ ms) = last_goodbye reason ms
last_goodbye reason (client_goodbye new ∷ ms) = last_goodbye new ms
last_goodbye reason (client_command payloads ∷ ms) = last_goodbye reason ms
last_goodbye reason (unknown_type ∷ ms) = last_goodbye reason ms

-- The states that the client reported.
abbrev pub reported : List ClientMessage → List PlayerState
reported [] = []
reported (client_time transmitted received sent has_room ∷ ms) = reported ms
reported (client_state none ∷ ms) = reported ms
reported (client_state (some player) ∷ ms) = player ∷ reported ms
reported (client_goodbye new ∷ ms) = reported ms
reported (client_command payloads ∷ ms) = reported ms
reported (unknown_type ∷ ms) = reported ms

abbrev pub report : Client → PlayerState → Event
report c player = client_state_changed c player.state player.volume player.muted

abbrev pub reports : Client → List PlayerState → List Event
reports c [] = []
reports c (player ∷ players) = report c player ∷ reports c players

-- What a served connection leaves: a well-formed group, with one event for each report if it is open.
pub record Served (g : Group) (c : Client) (told : List PlayerState) (g' : Group) : Type 0 where
  pub valid : IsValid g'
  pub closed : g'.closed ≡ g.closed
  pub clients : g'.clients ≡ g.clients
  pub published : g'.published ≡ (if g.closed then g.published else g.published ++ reports c told)

Served-none : (g : Group) (c : Client) → IsValid g → Served g c [] g
Served-none g c v = record {
  valid = v;
  closed = refl;
  clients = refl;
  published = ground (arith, append-nil g.published);
}

Served-state :
    (g h g' : Group) (c : Client) (player : PlayerState) (told : List PlayerState)
    → Published g (report c player) h
    → Served h c told g'
    → Served g c (player ∷ told) g'
Served-state g h g' c player told p s = record {
  valid = s.valid;
  closed = s.closed ∙ p.closed;
  clients = s.clients ∙ p.clients;
  published = ground (
    arith,
    s.published,
    p.published,
    p.closed,
    append_assoc g.published (report c player ∷ []) (reports c told),
  );
}

module _ (handles : String → Bool) where
  -- The read loop ends, on a well-formed group, with the answer to dial again exactly if the reason
  -- of the client's last goodbye is "restart"; an open group has then published one event for each
  -- state that the client reported, in order, and its members are as before.
  pub serve_messages_lem :
      (g : Group) (p : Peer) (ms : List ClientMessage)
      → IsValid g
      → (g' : Group) × (p' : Peer) × (serve_messages handles g p ms
          ≡ some (str_eq (last_goodbye p.goodbye_reason ms) "restart", g', p'))
        × Served g p.client (reported ms) g'
  unfolding serve_messages handle_client_message
  serve_messages_lem g p [] v = (g, p, refl, Served-none g p.client v)
  serve_messages_lem g p (client_time transmitted received sent true ∷ ms) v =
      serve_messages_lem g
        (record p { server_times = p.server_times ++ (transmitted, received, sent) ∷ [] }) ms v
  serve_messages_lem g p (client_time transmitted received sent false ∷ ms) v =
      serve_messages_lem g p ms v
  serve_messages_lem g p (client_state none ∷ ms) v = serve_messages_lem g p ms v
  serve_messages_lem g p (client_state (some player) ∷ ms) v =
      let (h, runs, published) = publish_lem g (report p.client player) v in
      let q : Peer = record p {
        state = player.state;
        volume = player.volume;
        muted = player.muted;
      } in
      let (g', p', rest, s) = serve_messages_lem h q ms published.valid in
      (
        g',
        p',
        rw (runs, serve_messages) rest,
        Served-state g h g' p.client player (reported ms) published s,
      )
  serve_messages_lem g p (client_goodbye reason ∷ ms) v =
      serve_messages_lem g (record p { goodbye_reason = reason }) ms v
  serve_messages_lem g p (client_command payloads ∷ ms) v =
      serve_messages_lem g (record p { commands = p.commands ++ route_all handles payloads }) ms v
  serve_messages_lem g p (unknown_type ∷ ms) v = serve_messages_lem g p ms v
