-- ===== src/Stream.antt =====
-- generateAndSendChunk and notifyStreamEnd of pkg/sendspin/server_stream.go: one tick of the audio
-- stream of the server. The clients are served one after another, each apart from the others, so
-- the map of clients is a list. The encoders and the resampler of a tick are parameters: for each
-- pointer, what it answers on samples, with none for an encoding error. The counter of read errors
-- is a plain number, since an `int` does not overflow at fifty ticks a second. The log is left out.
-- `none` is a run-time panic.
pub mod Encode
pub mod Chunk
pub mod Errors
mod Tests
use sendspin_go.Prelude.{
  ℕ, ◌+◌, Bool, true, false, not, List, [], ◌∷◌, map, Option, none, some, if◌then◌else◌, ◌==◌,
  length,
}
use sendspin_go.Prelude.Int.{ℤ, pos}
use sendspin_go.Prelude.Int64.{add64}
use sendspin_go.Prelude.Text.{String, str_eq}
use sendspin_go.BufferTracker.{BufferedChunk, BufferTracker, prune_consumed, can_send, register}
use sendspin_go.Audio.{convert_to_int16, encode_pcm}
use sendspin_go.Wire.{create_audio_chunk}
use sendspin_go.Roles.{ServerClient, Message, stream_end, binary, has_role, send}

-- BufferAheadMs and ChunkDurationMs in microseconds
abbrev pub buffer_ahead_us : ℤ
buffer_ahead_us = pos 500_000

abbrev pub chunk_duration_us : ℤ
chunk_duration_us = pos 20_000

-- What the audio source answers: an error, or the samples that it wrote.
pub data Read : Type 0 where
  failed : Read
  got : List ℕ → Read

pub record Server : Type 0 where
  pub clients : List ServerClient
  pub consecutive_read_errs : ℕ

pub notify_client : ServerClient → ServerClient
unfolding has_role send
notify_client c = if has_role c "player" then (send c (stream_end ("player" ∷ []))).1 else c

pub notify_stream_end : Server → Server
unfolding notify_client
notify_stream_end s = record s { clients = map notify_client s.clients }

-- The call of Register after a chunk was queued.
pub track : ServerClient → BufferTracker → BufferedChunk → Option ServerClient
unfolding register
track c t b = elim (register t b) [
  | none ↦ none
  | some t' ↦ some (record c { buffer_tracker = some t' })
]

-- A client's tick from `chunk := CreateAudioChunk` on, by its pruned tracker.
pub send_tracked : ServerClient → BufferTracker → BufferedChunk → List ℕ → Option ServerClient
unfolding can_send send track
send_tracked c t b chunk =
    let sent = send c (binary chunk) in
    if not (can_send t b.byte_count b.duration_us)
    then some c
    else if sent.0
    then track sent.1 t b
    else some sent.1

pub send_chunk : ServerClient → ℤ → ℤ → List ℕ → Option ServerClient
unfolding prune_consumed send_tracked send
send_chunk c now playback audio_data =
    let chunk = create_audio_chunk playback audio_data in
    let b : BufferedChunk = record {
      end_time_us = add64 playback chunk_duration_us;
      byte_count = pos (length chunk);
      duration_us = chunk_duration_us;
    } in
    elim c.buffer_tracker [
      | none ↦ some (send c (binary chunk)).1
      | some t ↦ elim (prune_consumed t now) [
        | none ↦ none
        | some t' ↦ send_tracked (record c { buffer_tracker = some t' }) t' b chunk
      ]
    ]

module _ (opus_encode flac_encode : ℕ → List ℕ → Option (List ℕ))
    (resample : ℕ → List ℕ → List ℕ) where
  -- The switch over the codec; none goes on to the next client.
  pub encode_for : ServerClient → List ℕ → Option (List ℕ)
  encode_for c samples =
      let resampled : List ℕ = elim c.resampler [ none ↦ samples | some r ↦ resample r samples ] in
      if str_eq c.codec "opus"
      then elim c.opus_encoder [ none ↦ none | some e ↦ opus_encode e (convert_to_int16 resampled) ]
      else if str_eq c.codec "flac"
      then elim c.flac_encoder [ none ↦ none | some e ↦ flac_encode e samples ]
      else some (encode_pcm samples)

  -- The body of the loop over the clients.
  pub serve : ServerClient → ℤ → ℤ → List ℕ → Option ServerClient
  unfolding encode_for send_chunk
  serve c now playback samples = elim (encode_for c samples) [
    | none ↦ some c
    | some audio_data ↦ send_chunk c now playback audio_data
  ]

  pub serve_all : List ServerClient → ℤ → ℤ → List ℕ → Option (List ServerClient)
  unfolding serve
  serve_all [] now playback samples = some []
  serve_all (c ∷ cs) now playback samples = elim (serve c now playback samples) [
    | none ↦ none
    | some c' ↦ elim (serve_all cs now playback samples) [
      | none ↦ none
      | some cs' ↦ some (c' ∷ cs')
    ]
  ]

  pub generate_and_send_chunk : Server → ℤ → Read → Option Server
  unfolding notify_stream_end serve_all
  generate_and_send_chunk s now failed =
      let counted : Server = record s { consecutive_read_errs = s.consecutive_read_errs + 1 } in
      if counted.consecutive_read_errs == 50 then some (notify_stream_end counted) else some counted
  generate_and_send_chunk s now (got samples) =
      elim (serve_all s.clients now (add64 now buffer_ahead_us) samples) [
        | none ↦ none
        | some cs ↦ some (record { clients = cs; consecutive_read_errs = 0 })
      ]
