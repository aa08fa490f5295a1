-- ===== src/Roles.antt =====
-- pkg/sendspin/server_client.go and role_player.go, with negotiateCodec of server_stream.go and
-- activateRoles of server.go: a connected client, its send queue, and what the player role sets up
-- when it joins.
-- An encoder and a resampler are numbers that stand for the pointers to them. The maker of a
-- resampler (pkg/audio/resample.go, which works on float64) and the base64 text of a FLAC header
-- are parameters. The log is left out. `send_chan` lists what is queued and not yet written.
pub mod Activation
pub mod Negotiation
pub mod Player
mod Tests
use sendspin_go.Prelude.{
  ℕ, ◌+◌, Bool, true, false, ◌||◌, ◌&&◌, not, List, [], ◌∷◌, ◌++◌, Option, none, some,
  if◌then◌else◌, ltb, length,
}
use sendspin_go.Prelude.Int.{ℤ, pos, quot_ℤ, ltb_ℤ, eqb_ℤ}
use sendspin_go.Prelude.Int64.{mul64}
use sendspin_go.Prelude.Text.{String, str_eq, starts_with, text_append, find?, slice}
use sendspin_go.BufferTracker.{BufferTracker, new_buffer_tracker}

pub record AudioFormat : Type 0 where
  pub codec : String
  pub channels : ℤ
  pub sample_rate : ℤ
  pub bit_depth : ℤ

-- protocol.PlayerV1Support, without the fields that the server does not read
pub record PlayerSupport : Type 0 where
  pub supported_formats : List AudioFormat
  pub buffer_capacity : ℤ

-- protocol.MetadataState, without the fields that the server does not set
pub record MetadataState : Type 0 where
  pub timestamp : ℤ
  pub title : Option String
  pub artist : Option String
  pub album : Option String
  pub repeat : Option String
  pub shuffle : Option Bool

-- protocol.ControllerState, without the fields that the server does not set
pub record ControllerState : Type 0 where
  pub supported_commands : List String
  pub repeat : String
  pub shuffle : Bool

pub record StreamStartPlayer : Type 0 where
  pub codec : String
  pub sample_rate : ℤ
  pub channels : ℤ
  pub bit_depth : ℤ
  pub codec_header : String

-- What is put into the send channel: typed messages, and binary frames.
pub data Message : Type 0 where
  stream_start : StreamStartPlayer → Message
  stream_end : List String → Message
  server_state_metadata : MetadataState → Message
  server_state_controller : ControllerState → Message
  binary : List ℕ → Message

pub record ServerClient : Type 0 where
  pub id : String
  pub name : String
  pub roles : List String
  pub capabilities : Option PlayerSupport
  pub codec : String
  pub opus_encoder : Option ℕ
  pub flac_encoder : Option ℕ
  pub resampler : Option ℕ
  pub buffer_tracker : Option BufferTracker
  pub send_chan : List Message

abbrev pub send_chan_size : ℕ
send_chan_size = 100

-- The loop of HasRole over the client's roles.
pub any_role : List String → String → Bool
any_role [] role = false
any_role (r ∷ rs) role = str_eq r role || starts_with r (text_append role "@") || any_role rs role

unfoldable pub has_role : ServerClient → String → Bool
unfolding any_role
has_role c role = any_role c.roles role

-- Send and SendBinary: the answer tells whether the message was queued.
unfoldable pub send : ServerClient → Message → Bool × ServerClient
send c m =
    if ltb (length c.send_chan) send_chan_size
    then (true, record c { send_chan = c.send_chan ++ m ∷ [] })
    else (false, c)

-- The name of a role up to its first "@", if that is not the first byte.
pub family : String → String
family role = elim (find? role "@") [
  | none ↦ role
  | some idx ↦ if ltb 0 idx then slice role 0 idx else role
]

pub member : List String → String → Bool
member [] s = false
member (t ∷ ts) s = str_eq t s || member ts s

-- The loop of activateRoles, with the families that it has seen.
pub activate_loop : List String → List String → List String → List String
unfolding member
activate_loop allowed seen [] = []
activate_loop allowed seen (role ∷ rest) =
    if member seen (family role)
    then activate_loop allowed seen rest
    else if member allowed (family role)
    then role ∷ activate_loop allowed (family role ∷ seen) rest
    else activate_loop allowed seen rest

-- The families of the config, then those of the group's roles.
pub activate_roles : List String → List String → List String → List String
unfolding activate_loop
activate_roles configured registered supported =
    activate_loop (configured ++ registered) [] supported

abbrev pub default_bit_depth : ℤ
default_bit_depth = pos 24

abbrev pub chunk_duration_ms : ℤ
chunk_duration_ms = pos 20

-- The loop of negotiateCodec.
pub negotiate_loop : List AudioFormat → ℤ → String
negotiate_loop [] rate = "pcm"
negotiate_loop (f ∷ fs) rate =
    if str_eq f.codec "pcm"
    then if eqb_ℤ f.sample_rate rate && eqb_ℤ f.bit_depth default_bit_depth
      then "pcm"
      else negotiate_loop fs rate
    else if str_eq f.codec "flac"
    then "flac"
    else if str_eq f.codec "opus"
    then "opus"
    else negotiate_loop fs rate

pub negotiate_codec : ServerClient → ℤ → String
unfolding negotiate_loop
negotiate_codec c rate = elim c.capabilities [
  | none ↦ "pcm"
  | some caps ↦ negotiate_loop caps.supported_formats rate
]

-- `none` is a maker that is not set; a maker answers none when it fails.
pub record PlayerRoleConfig : Type 0 where
  pub sample_rate : ℤ
  pub channels : ℤ
  pub bit_depth : ℤ
  pub new_encoder : Option (ℤ → ℤ → ℤ → Option ℕ)
  pub new_flac_encoder : Option (ℤ → ℤ → ℤ → ℤ → Option ℕ)

-- The codec, encoders and resampler that a joining client gets.
pub record Setup : Type 0 where
  pub codec : String
  pub opus_encoder : Option ℕ
  pub flac_encoder : Option ℕ
  pub resampler : Option ℕ

abbrev pub pcm_setup : Setup
pcm_setup = record { codec = "pcm"; opus_encoder = none; flac_encoder = none; resampler = none }

module _ (new_resampler : ℤ → ℤ → ℤ → ℕ) (codec_header : ℕ → String) where
  pub set_up_opus : PlayerRoleConfig → Setup
  set_up_opus r = elim r.new_encoder [
    | none ↦ pcm_setup
    | some make ↦
        elim (make (pos 48000) r.channels (quot_ℤ (mul64 (pos 48000) chunk_duration_ms) 1000)) [
          | none ↦ pcm_setup
          | some e ↦ record {
            codec = "opus";
            opus_encoder = some e;
            flac_encoder = none;
            resampler =
                if eqb_ℤ r.sample_rate (pos 48000)
                then none
                else some (new_resampler r.sample_rate (pos 48000) r.channels);
          }
        ]
  ]

  pub set_up_flac : PlayerRoleConfig → Setup
  set_up_flac r = elim r.new_flac_encoder [
    | none ↦ pcm_setup
    | some make ↦
        elim (make r.sample_rate r.channels r.bit_depth
          (quot_ℤ (mul64 r.sample_rate chunk_duration_ms) 1000)) [
            | none ↦ pcm_setup
            | some e ↦ record {
              codec = "flac";
              opus_encoder = none;
              flac_encoder = some e;
              resampler = none;
            }
          ]
  ]

  -- The switch of OnClientJoin over the negotiated codec.
  pub set_up : PlayerRoleConfig → String → Setup
  unfolding set_up_opus set_up_flac
  set_up r codec =
      if str_eq codec "opus"
      then set_up_opus r
      else if str_eq codec "flac"
      then set_up_flac r
      else record { codec = codec; opus_encoder = none; flac_encoder = none; resampler = none }

  pub buffer_capacity : ServerClient → ℤ
  buffer_capacity c = elim c.capabilities [
    | none ↦ pos 1048576
    | some caps ↦ if ltb_ℤ (pos 0) caps.buffer_capacity then caps.buffer_capacity else pos 1048576
  ]

  pub start_message : PlayerRoleConfig → Setup → StreamStartPlayer
  start_message r s = record {
    codec = s.codec;
    sample_rate = if str_eq s.codec "opus" then pos 48000 else r.sample_rate;
    channels = r.channels;
    bit_depth = if str_eq s.codec "opus" then pos 16 else r.bit_depth;
    codec_header =
        if str_eq s.codec "flac"
        then elim s.flac_encoder [ none ↦ "" | some e ↦ codec_header e ]
        else "";
  }

  -- OnClientJoin of the player role.
  pub player_on_client_join : PlayerRoleConfig → ServerClient → ServerClient
  unfolding has_role negotiate_codec set_up buffer_capacity start_message send
  player_on_client_join r c =
      let s = set_up r (negotiate_codec c r.sample_rate) in
      let joined : ServerClient = record c {
        codec = s.codec;
        opus_encoder = s.opus_encoder;
        flac_encoder = s.flac_encoder;
        resampler = s.resampler;
        buffer_tracker = some (new_buffer_tracker (buffer_capacity c));
      } in
      if not (has_role c "player") then c else (send joined (stream_start (start_message r s))).1
