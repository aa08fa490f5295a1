-- ===== src/Connection/Tests.antt =====
-- Connections to pkg/sendspin/server.go at concrete hellos and messages, and the theorems on them.
use sendspin_go.Prelude.{◌≡◌, refl, false, true, List, [], ◌∷◌, some, none}
use sendspin_go.Prelude.Int.{pos}
use sendspin_go.Prelude.Text.{str_eq}
use sendspin_go.Group.{Client, Group, new_group, has_client}
use sendspin_go.Group.Invariant.{IsValid}
use sendspin_go.Group.Steps.{IsValid-same, new_group-IsValid}
use sendspin_go.Connection.{
  ClientHello, Server, client_of, answer, Step, registers, joins, unregisters, leaves, connect_all,
  Peer, ClientMessage, client_time, client_state, client_goodbye, client_command, unknown_type,
  serve_messages,
}
use sendspin_go.Connection.Admission.{IsSound, find_client, connect_all-find_client}
use sendspin_go.Connection.Takeover.{takeover_lost}
use sendspin_go.Connection.Goodbye.{last_goodbye, reported, Served, serve_messages_lem}

abbrev hello : ClientHello
hello = record { client_id = "kitchen"; name = "Kitchen"; supported_roles = "player@v1" ∷ [] }

abbrev old : Client
old = record { pointer = 1; id = "kitchen"; name = "Kitchen" }

abbrev group_with_old : Group
group_with_old = record (new_group "g") { clients = old ∷ [] }

abbrev serving : Server
serving = record { is_shutdown = false; clients = old ∷ []; group = group_with_old }

group_with_old-IsValid : IsValid group_with_old
unfolding new_group
group_with_old-IsValid =
    IsValid-same (new_group "g") group_with_old refl refl refl refl (new_group-IsValid "g")

serving-IsSound : IsSound serving
unfolding has_client
serving-IsSound = record { unique = (refl, tt); group = group_with_old-IsValid }

-- A second connection with the ID tries to come in; another one comes and goes.
abbrev den : Client
den = record { pointer = 3; id = "den"; name = "Den" }

abbrev steps : List Step
steps =
    registers 2 hello
    ∷ registers 3 (record hello { client_id = "den"; name = "Den" })
    ∷ joins den
    ∷ unregisters den
    ∷ leaves den
    ∷ []

connect_all-find_client_example :
    (s' : Server) × (connect_all serving steps ≡ some s')
    × IsSound s'
    × (find_client s'.clients "kitchen" ≡ some old)
connect_all-find_client_example =
    connect_all-find_client serving steps "kitchen" old serving-IsSound refl
      (tt, (tt, (tt, (refl, (tt, tt)))))

takeover_lost_example :
    (s' : Server) × (connect_all serving
        (unregisters old ∷ registers 2 hello ∷ joins (client_of 2 hello) ∷ leaves old ∷ [])
      ≡ some s')
    × (has_client s'.clients "kitchen" ≡ true)
    × (has_client s'.group.clients "kitchen" ≡ false)
    × (s'.group.updates ≡ [])
unfolding has_client new_group answer
takeover_lost_example = takeover_lost serving old 2 hello serving-IsSound refl refl (refl, tt) refl

abbrev peer : Peer
peer = record {
  client = old;
  state = "synchronized";
  volume = pos 100;
  muted = false;
  goodbye_reason = "";
  server_times = [];
  commands = [];
}

abbrev messages : List ClientMessage
messages =
    client_time (pos 1) (pos 2) (pos 3) true
    ∷ client_state (some (record { state = "playing"; volume = pos 40; muted = true }))
    ∷ client_command (("controller", "next") ∷ [])
    ∷ unknown_type
    ∷ client_state none
    ∷ client_goodbye "restart"
    ∷ []

serve_messages_lem_example :
    (g' : Group) × (p' : Peer) × (serve_messages (λ role_family. true) group_with_old peer messages
      ≡ some (str_eq (last_goodbye "" messages) "restart", g', p'))
    × Served group_with_old old (reported messages) g'
serve_messages_lem_example =
    serve_messages_lem (λ role_family. true) group_with_old peer messages group_with_old-IsValid
