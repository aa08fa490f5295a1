-- ===== src/Player.antt =====
-- pkg/sendspin/player.go: the player's state, its output and what it reports to the server. The
-- steps between two uses of stateMu are atomic here, each method is their sequence, and the answers
-- of the network and of the audio library are arguments. An output given in the config is a Malgo
-- one. Between methods, p.receiver is nil until Connect has succeeded.
pub mod Gain
pub mod Calls
pub mod Reconnect
pub mod Reports
mod Tests
use sendspin_go.Prelude.{
  ℕ, Bool, true, false, not, ◌&&◌, List, [], ◌∷◌, ◌++◌, Option, none, some, if◌then◌else◌,
}
use sendspin_go.Prelude.Int.{ℤ, pos, ltb_ℤ, eqb_ℤ}
use sendspin_go.Prelude.Text.{String}
use sendspin_go.Output.Malgo.{
  Malgo, OpenError, Backend, new_malgo, open_device, close, set_volume, set_muted,
}

pub record PlayerState : Type 0 where
  pub state : String
  pub volume : ℤ
  pub muted : Bool
  pub codec : String
  pub sample_rate : ℤ
  pub channels : ℤ
  pub bit_depth : ℤ
  pub connected : Bool

-- protocol.PlayerState, the body of client/state.
pub record Report : Type 0 where
  pub state : String
  pub volume : ℤ
  pub muted : Bool

-- `connected_once` tells whether p.receiver is set; `sent` holds the reports that the server has
-- been sent, and `shown` the states that OnStateChange has been called with.
pub record Player : Type 0 where
  pub audio_device : String
  pub state : PlayerState
  pub output : Option Malgo
  pub connected_once : Bool
  pub sent : List Report
  pub shown : List PlayerState

-- The part of NewPlayer that concerns the state.
unfoldable pub new_player : ℤ → String → Option Malgo → Player
new_player volume audio_device output = record {
  audio_device = audio_device;
  state = record {
    state = "idle";
    volume = if eqb_ℤ volume (pos 0) then pos 100 else volume;
    muted = false;
    codec = "";
    sample_rate = pos 0;
    channels = pos 0;
    bit_depth = pos 0;
    connected = false;
  };
  output = output;
  connected_once = false;
  sent = [];
  shown = [];
}

unfoldable pub notify_state_change : Player → Player
notify_state_change p = record p { shown = p.shown ++ p.state ∷ [] }

-- sendState; the answer tells whether it returns nil. `delivers` is the client's.
unfoldable pub send_state : Player → Bool → Player × Bool
send_state p delivers =
    if not p.connected_once
    then (p, true)
    else if delivers
    then (
      record p {
        sent =
            p.sent
            ++ record { state = "synchronized"; volume = p.state.volume; muted = p.state.muted }
              ∷ [];
      },
      true,
    )
    else (p, false)

unfoldable pub in_state : Player → String → Player
in_state p s = record p { state = record p.state { state = s } }

-- The first report, which the client's handshake makes (pkg/protocol/client.go).
abbrev pub first_report : Report
first_report = record { state = "synchronized"; volume = pos 100; muted = false }

-- Connect and the end of runReconnectLoop's round, once the receiver has connected.
unfoldable pub connected : Player → Player
unfolding notify_state_change
connected p = notify_state_change (record p {
  state = record p.state { connected = true };
  connected_once = true;
  sent = p.sent ++ first_report ∷ [];
})

-- The connection is lost and reconnecting is enabled.
unfoldable pub connection_lost : Player → Player
unfolding notify_state_change
connection_lost p =
    notify_state_change
      (record p { state = record p.state { connected = false; state = "reconnecting" } })

-- The output that SetVolume and Mute change, when there is one.
unfoldable pub on_output : Player → (Malgo → Malgo) → Player
on_output p f = elim p.output [ none ↦ p | some o ↦ record p { output = some (f o) } ]

-- SetVolume's report to the server, whose error is dropped.
unfoldable pub report : Player → Bool → Player
unfolding send_state
report p delivers = if p.connected_once && p.state.connected then (send_state p delivers).0 else p

unfoldable pub clamp_volume : ℤ → ℤ
clamp_volume volume =
    let volume = if ltb_ℤ volume (pos 0) then pos 0 else volume in
    if ltb_ℤ (pos 100) volume then pos 100 else volume

-- Player.SetVolume
unfoldable pub player_set_volume : Player → ℤ → Bool → Player
unfolding clamp_volume on_output report notify_state_change
player_set_volume p volume delivers =
    let volume = clamp_volume volume in
    let muted = p.state.muted in
    let p = if not muted then record p { state = record p.state { volume = volume } } else p in
    let p = if not muted then on_output p (λ o. set_volume o volume) else p in
    notify_state_change (report p delivers)

-- Player.Mute
unfoldable pub mute : Player → Bool → Bool → Player
unfolding on_output report notify_state_change
mute p muted delivers =
    let p = record p { state = record p.state { muted = muted } } in
    let vol = p.state.volume in
    let p =
      on_output p
        (λ o. if not muted then set_volume (set_muted o muted) vol else set_muted o muted) in
    notify_state_change (report p delivers)

-- The part of onStreamStart under its first lock.
unfoldable pub make_output : Player → Player
make_output p = elim p.output [
  | none ↦ record p { output = some (new_malgo p.audio_device) }
  | some o ↦ p
]

-- The part under its second lock, once the output is open: the new state, with the volume and the
-- mute that it has read.
unfoldable pub stream_state : Player → String → ℤ → ℤ → ℤ → Player
stream_state p codec sample_rate channels bit_depth = record p {
  state = record p.state {
    codec = codec;
    sample_rate = sample_rate;
    channels = channels;
    bit_depth = bit_depth;
    state = "playing";
  };
}

-- The end of onStreamStart, past its locks, with the volume and the mute that it has read.
unfoldable pub set_gain : Player → ℤ → Bool → Player
unfolding on_output notify_state_change
set_gain p vol mut = notify_state_change (on_output p (λ o. set_muted (set_volume o vol) mut))

-- onStreamStart; none is a panic of the output.
unfoldable pub on_stream_start : Player → String → ℤ → ℤ → ℤ → Backend → Option Player
unfolding make_output stream_state set_gain
on_stream_start p codec sample_rate channels bit_depth b =
    let p = make_output p in
    elim p.output [
      | none ↦ some p
      | some o ↦ elim (open_device o sample_rate channels bit_depth b) [
        | none ↦ none
        | some opened ↦
            let p = record p { output = some opened.0 } in
            elim opened.1 [
              | some e ↦ some p
              | none ↦ some (
                  set_gain (stream_state p codec sample_rate channels bit_depth) p.state.volume
                    p.state.muted)
            ]
      ]
    ]

unfoldable pub on_stream_end : Player → Player
unfolding in_state notify_state_change
on_stream_end p = notify_state_change (in_state p "idle")

-- Play, Pause and Stop, by the state that they set; the answer tells whether they return nil.
unfoldable pub set_playback : Player → String → Bool → Player × Bool
unfolding in_state notify_state_change send_state
set_playback p s delivers =
    if not p.state.connected
    then (p, false)
    else send_state (notify_state_change (in_state p s)) delivers

-- EnterExternalSource
unfoldable pub enter_external_source : Player → Bool → Player × Bool
unfolding in_state notify_state_change
enter_external_source p delivers =
    if not p.connected_once then (p, false) else if not delivers then (p, false) else (
      notify_state_change (
          in_state
            (record p {
              sent =
                  p.sent
                  ++ record { state = "external_source"; volume = pos 0; muted = false } ∷ [];
            })
            "external_source"),
      true,
    )

-- ExitExternalSource
unfoldable pub exit_external_source : Player → Bool → Player × Bool
unfolding in_state notify_state_change send_state
exit_external_source p delivers =
    if not p.connected_once
    then (p, false)
    else let (p', ok) = send_state p delivers in
      if ok then (notify_state_change (in_state p' "idle"), true) else (p', false)

-- Player.Close
unfoldable pub close_player : Player → Player
unfolding on_output in_state notify_state_change
close_player p =
    let p = on_output p close in
    notify_state_change (record p { state = record p.state { connected = false; state = "idle" } })
