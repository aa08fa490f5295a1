-- ===== src/RoleState.antt =====
-- pkg/sendspin/role_controller.go and role_metadata.go: the snapshots that the controller and the
-- metadata role send to the clients of their group. `attached` tells whether the role was registered
-- on a group, whose clients are then an argument; a callback is its answer, none if it is not set.
pub mod InSync
mod Tests
use sendspin_go.Prelude.{Bool, true, false, ◌||◌, not, List, map, Option, none, some, if◌then◌else◌}
use sendspin_go.Prelude.Int.{ℤ, pos}
use sendspin_go.Prelude.Text.{String, str_eq}
use sendspin_go.Roles.{
  MetadataState, ControllerState, Message, server_state_metadata, server_state_controller,
  ServerClient, has_role, send,
}

pub record ControllerGroupRole : Type 0 where
  pub supported_commands : List String
  pub repeat : String
  pub shuffle : Bool
  pub clock_micros : Option ℤ
  pub attached : Bool

pub new_controller_role : List String → String → Bool → Option ℤ → ControllerGroupRole
new_controller_role supported_commands repeat shuffle clock_micros = record {
  supported_commands = supported_commands;
  repeat = if str_eq repeat "" then "off" else repeat;
  shuffle = shuffle;
  clock_micros = clock_micros;
  attached = false;
}

abbrev pub controller_state : ControllerGroupRole → ControllerState
controller_state r = record {
  supported_commands = r.supported_commands;
  repeat = r.repeat;
  shuffle = r.shuffle;
}

-- The mirror for clients of the metadata role.
pub mirrored_state : ControllerGroupRole → Option MetadataState
mirrored_state r = elim r.clock_micros [
  | none ↦ none
  | some now ↦ some (record {
    timestamp = now;
    title = none;
    artist = none;
    album = none;
    repeat = some r.repeat;
    shuffle = some r.shuffle;
  })
]

-- The body of the loop of broadcastState.
pub tell_state : ControllerGroupRole → ServerClient → ServerClient
unfolding mirrored_state
tell_state r c =
    let mirrored : ServerClient = elim (mirrored_state r) [
      | none ↦ c
      | some m ↦ if has_role c "metadata" then (send c (server_state_metadata m)).1 else c
    ] in
    if has_role c "controller"
    then (send c (server_state_controller (controller_state r))).1
    else mirrored

pub broadcast_state : ControllerGroupRole → List ServerClient → List ServerClient
unfolding tell_state
broadcast_state r clients = if r.attached then map (tell_state r) clients else clients

pub set_repeat :
    ControllerGroupRole → List ServerClient → String → ControllerGroupRole × List ServerClient
unfolding broadcast_state
set_repeat r clients mode =
    let changed : ControllerGroupRole = record r { repeat = mode } in
    if str_eq r.repeat mode then (r, clients) else (changed, broadcast_state changed clients)

pub same_bool : Bool → Bool → Bool
same_bool true b = b
same_bool false b = not b

pub set_shuffle :
    ControllerGroupRole → List ServerClient → Bool → ControllerGroupRole × List ServerClient
unfolding broadcast_state same_bool
set_shuffle r clients on =
    let changed : ControllerGroupRole = record r { shuffle = on } in
    if same_bool r.shuffle on then (r, clients) else (changed, broadcast_state changed clients)

pub controller_on_client_join : ControllerGroupRole → ServerClient → ServerClient
controller_on_client_join r c =
    if not (has_role c "controller")
    then c
    else (send c (server_state_controller (controller_state r))).1

-- The metadata role: what its callbacks answer.
pub record MetadataGroupRole : Type 0 where
  pub get_metadata : Option (String × String × String)
  pub clock_micros : Option ℤ
  pub attached : Bool

pub snapshot_message : MetadataGroupRole → Option MetadataState
snapshot_message r = elim r.get_metadata [
  | none ↦ none
  | some (title, artist, album) ↦ some (record {
    timestamp = elim r.clock_micros [ none ↦ pos 0 | some now ↦ now ];
    title = some title;
    artist = some artist;
    album = some album;
    repeat = none;
    shuffle = none;
  })
]

pub metadata_on_client_join : MetadataGroupRole → ServerClient → ServerClient
unfolding snapshot_message
metadata_on_client_join r c =
    let sent : ServerClient = elim (snapshot_message r) [
      | none ↦ c
      | some m ↦ (send c (server_state_metadata m)).1
    ] in
    if not (has_role c "metadata") then c else sent

pub broadcast_metadata : MetadataGroupRole → List ServerClient → List ServerClient
unfolding metadata_on_client_join
broadcast_metadata r clients =
    if r.attached then map (metadata_on_client_join r) clients else clients

pub on_playback_state_changed :
    MetadataGroupRole → List ServerClient → String → String → List ServerClient
unfolding broadcast_metadata
on_playback_state_changed r clients old new =
    if not (str_eq new "playing") || str_eq old "playing"
    then clients
    else broadcast_metadata r clients
