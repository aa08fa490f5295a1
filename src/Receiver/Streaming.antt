-- ===== src/Receiver/Streaming.antt =====
-- The stream handlers of pkg/sendspin/receiver.go: stream/start, the audio chunks, stream/clear,
-- stream/end and group/update, on the receiver's current decoder and scheduler. The decoders' makers
-- and their decoding, base64 and the server clock's map to local time are parameters. A scheduler
-- that a new stream has replaced is dropped: it is stopped, and its output is no longer read.

pub mod Current
pub mod Streams
pub mod Messages
use sendspin_go.Prelude.{
  ℕ, suc, ◌+◌, Bool, true, false, not, ◌&&◌, ◌||◌, List, [], ◌∷◌, ◌++◌, Option, none, some,
  if◌then◌else◌,
}
use sendspin_go.Prelude.Int.{ℤ, pos}
use sendspin_go.Prelude.Text.{String, str_eq}
use sendspin_go.Audio.{Format, Buffer}
use sendspin_go.Roles.{StreamStartPlayer}
use sendspin_go.Scheduler.{Scheduler, new_scheduler, schedule, clear}

-- The makers of the decoders and the libraries behind them. A decoder is its number.
pub record Codecs : Type 0 where
  -- config.DecoderFactory, if there is one
  pub decoder_factory : Option (Format → Option ℕ)
  pub new_pcm : Format → Option ℕ
  pub new_opus : Format → Option ℕ
  pub new_flac : Format → Option ℕ
  pub decode : ℕ → List ℕ → Option (List ℕ)
  pub decode_base64 : String → Option (List ℕ)
  pub server_to_local : ℤ → ℤ

pub record Receiver : Type 0 where
  pub buffer_ms : ℤ
  pub static_delay_ms : ℤ
  pub decoder : Option ℕ
  pub format : Format
  pub scheduler : Option Scheduler
  -- how often OnError has been called, and with which formats OnStreamStart
  pub errors : ℕ
  pub started : List Format
  pub ended : ℕ

unfoldable pub notify_error : Receiver → Receiver
notify_error r = record r { errors = suc r.errors }

unfoldable pub default_decoder : Codecs → Format → Option ℕ
default_decoder c format =
    if str_eq format.codec "pcm"
    then c.new_pcm format
    else if str_eq format.codec "opus"
    then c.new_opus format
    else if str_eq format.codec "flac"
    then c.new_flac format
    else none

unfoldable pub make_decoder : Codecs → Format → Option ℕ
unfolding default_decoder
make_decoder c format = elim c.decoder_factory [
  | some factory ↦ factory format
  | none ↦ default_decoder c format
]

-- A header that does not decode is left out.
unfoldable pub stream_format : Codecs → StreamStartPlayer → Format
stream_format c start = record {
  codec = start.codec;
  sample_rate = start.sample_rate;
  channels = start.channels;
  bit_depth = start.bit_depth;
  codec_header =
      if not (str_eq start.codec_header "")
      then elim (c.decode_base64 start.codec_header) [ none ↦ [] | some bytes ↦ bytes ]
      else [];
}

-- handleStreamStart on one message, whose player part may be missing.
unfoldable pub handle_stream_start : Codecs → Receiver → Option StreamStartPlayer → Receiver
unfolding make_decoder stream_format notify_error
handle_stream_start c r none = r
handle_stream_start c r (some start) =
    let format = stream_format c start in
    elim (make_decoder c format) [
      | none ↦ notify_error r
      | some decoder ↦ record r {
        decoder = some decoder;
        format = format;
        scheduler = some (new_scheduler r.buffer_ms r.static_delay_ms);
        started = r.started ++ format ∷ [];
      }
    ]

-- handleAudioChunks on one chunk.
unfoldable pub handle_audio_chunk : Codecs → Receiver → ℤ → List ℕ → Receiver
unfolding notify_error
handle_audio_chunk c r timestamp bytes = elim r.decoder [
  | none ↦ r
  | some decoder ↦ elim r.scheduler [
    | none ↦ r
    | some s ↦ elim (c.decode decoder bytes) [
      | none ↦ notify_error r
      | some pcm ↦ elim pcm [
        | [] ↦ r
        | x ∷ xs ↦ record r {
          scheduler = some (
              schedule c.server_to_local s (record {
                timestamp = timestamp;
                play_at = pos 0;
                samples = x ∷ xs;
                format = r.format;
              }));
        }
      ]
    ]
  ]
]

unfoldable pub contains_role : List String → String → Bool
contains_role [] role = false
contains_role (r ∷ roles) role = str_eq r role || contains_role roles role

-- The test of handleStreamClear and handleStreamEnd: no roles mean all of them.
unfoldable pub for_player : List String → Bool
unfolding contains_role
for_player roles = elim roles [ [] ↦ true | r ∷ rs ↦ contains_role (r ∷ rs) "player" ]

unfoldable pub clear_scheduler : Receiver → Receiver
clear_scheduler r = elim r.scheduler [ none ↦ r | some s ↦ record r { scheduler = some (clear s) } ]

unfoldable pub handle_stream_clear : Receiver → List String → Receiver
unfolding for_player clear_scheduler
handle_stream_clear r roles = if for_player roles then clear_scheduler r else r

unfoldable pub handle_stream_end : Receiver → List String → Receiver
unfolding for_player
handle_stream_end r roles = if for_player roles then record r { ended = suc r.ended } else r

-- handleGroupUpdates on the playback state of one message, if it has one.
unfoldable pub handle_group_update : Receiver → Option String → Receiver
unfolding clear_scheduler
handle_group_update r none = r
handle_group_update r (some state) =
    if str_eq state "paused" || str_eq state "stopped" then clear_scheduler r else r
