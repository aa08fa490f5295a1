-- ===== src/Receiver/Streaming/Current.antt =====
-- The current stream of a receiver of pkg/sendspin/receiver.go, as its messages tell it.
use mathlib.Core.List.{Perm}
use sendspin_go.Prelude.{ℕ, ◌≡◌, List, [], ◌∷◌, Option, none, some, map}
use sendspin_go.Prelude.Int.{ℤ, pos}
use sendspin_go.Audio.{Format, Buffer}
use sendspin_go.BufferQueue.Order.{IsHeap}
use sendspin_go.Roles.{StreamStartPlayer}
use sendspin_go.Scheduler.{Scheduler, new_scheduler, timed}
use sendspin_go.Receiver.Streaming.{Codecs, Receiver, make_decoder, stream_format}

-- A stream as the messages tell it: its decoder, its format, and the chunks that arrived since its
-- stream/start and since the last stream/clear, decoded, the latest first.
pub record Stream : Type 0 where
  pub decoder : ℕ
  pub format : Format
  pub chunks : List Buffer

abbrev pub emptied : Option Stream → Option Stream
emptied none = none
emptied (some st) = some (record st { chunks = [] })

-- A chunk that does not decode, or to nothing, is not kept.
abbrev pub with_chunk : Codecs → Option Stream → ℤ → List ℕ → Option Stream
with_chunk c none timestamp bytes = none
with_chunk c (some st) timestamp bytes = elim (c.decode st.decoder bytes) [
  | none ↦ some st
  | some pcm ↦ elim pcm [
    | [] ↦ some st
    | x ∷ xs ↦
        let b : Buffer = record {
          timestamp = timestamp;
          play_at = pos 0;
          samples = x ∷ xs;
          format = st.format;
        } in
        some (record st { chunks = b ∷ st.chunks })
  ]
]

-- A stream whose decoder cannot be made leaves the one before.
abbrev pub with_start : Codecs → Option Stream → StreamStartPlayer → Option Stream
with_start c m start = elim (make_decoder c (stream_format c start)) [
  | none ↦ m
  | some d ↦ some (record { decoder = d; format = stream_format c start; chunks = [] })
]

-- The receiver's scheduler has the chunks of the stream, and no others, each at its local time with
-- the receiver's static delay, in a heap.
pub record Plays (c : Codecs) (r : Receiver) (st : Stream) (s : Scheduler) : Type 0 where
  pub decodes : r.decoder ≡ some st.decoder
  pub formats : r.format ≡ st.format
  pub schedules : r.scheduler ≡ some s
  pub delayed : s.static_delay ≡ (new_scheduler r.buffer_ms r.static_delay_ms).static_delay
  pub heap : IsHeap s.buffer_q
  pub queued : Perm s.buffer_q (map (timed c.server_to_local s.static_delay) st.chunks)

abbrev pub Shows : Codecs → Receiver → Option Stream → Type 0
Shows c r none = (r.decoder ≡ none) × (r.scheduler ≡ none)
Shows c r (some st) = (s : Scheduler) × Plays c r st s
