-- ===== src/Stream/Chunk.antt =====
-- What a tick of the stream of pkg/sendspin/server_stream.go does for one client.
use sendspin_go.Prelude.{ℕ, ◌≡◌, Bool, List, [], ◌∷◌, ◌++◌, some, arith, if◌then◌else◌, ltb, length}
use sendspin_go.Prelude.Int.{ℤ, pos}
use sendspin_go.Prelude.Int64.{add64}
use sendspin_go.BufferTracker.{BufferedChunk, BufferTracker, offer}
use sendspin_go.BufferTracker.Contents.{contents}
use sendspin_go.BufferTracker.Budget.{WithinBudget, Fits}
use sendspin_go.BufferTracker.Offers.{Attempt, attempt_queue, Offered, offer_refines}
use sendspin_go.Wire.{create_audio_chunk}
use sendspin_go.Roles.{ServerClient, binary, send, send_chan_size}
use sendspin_go.Stream.{chunk_duration_us, track, send_tracked, send_chunk}

-- The record of a chunk of the stream.
abbrev pub tracked_chunk : ℤ → List ℕ → BufferedChunk
tracked_chunk playback audio_data = record {
  end_time_us = add64 playback chunk_duration_us;
  byte_count = pos (length (create_audio_chunk playback audio_data));
  duration_us = chunk_duration_us;
}

abbrev pub has_room : ServerClient → Bool
has_room c = ltb (length c.send_chan) send_chan_size

send_chunk-offer :
    (c : ServerClient) (t t' : BufferTracker) (now playback : ℤ) (audio_data : List ℕ) (sent : Bool)
    → c.buffer_tracker ≡ some t
    → offer t now (tracked_chunk playback audio_data) (has_room c) ≡ some (sent, t')
    → send_chunk c now playback audio_data
      ≡ some (record c {
        buffer_tracker = some t';
        send_chan =
            if sent
            then c.send_chan ++ binary (create_audio_chunk playback audio_data) ∷ []
            else c.send_chan;
      })
unfolding send_chunk send_tracked track send offer
send_chunk-offer c t t' now playback audio_data sent e o = ground arith

-- The tick as an attempt on the client's tracker.
abbrev pub attempt : ServerClient → ℤ → ℤ → List ℕ → Attempt
attempt c now playback audio_data = record {
  now = now;
  chunk = tracked_chunk playback audio_data;
  enqueued = has_room c;
}

-- For a client whose tracker is within its budget, where the sums of CanSend do not wrap, a tick
-- with encoded data does not panic. The binary frame of the data is put at the end of the client's
-- queue, and the chunk recorded, exactly if after dropping the ended chunks both limits of the
-- tracker allow it and the queue has room; else the queue stays as it was. The tracker then holds
-- the chunks that the plain queue of chunks holds, within its budget.
pub send_chunk_refines :
    (c : ServerClient) (t : BufferTracker) (now playback : ℤ) (audio_data : List ℕ)
    → c.buffer_tracker ≡ some t
    → WithinBudget t
    → Fits t (tracked_chunk playback audio_data)
    → (t' : BufferTracker) × (send_chunk c now playback audio_data
        ≡ some (record c {
          buffer_tracker = some t';
          send_chan =
              if (attempt_queue t (contents t) (attempt c now playback audio_data)).0
              then c.send_chan ++ binary (create_audio_chunk playback audio_data) ∷ []
              else c.send_chan;
        }))
      × Offered t (attempt_queue t (contents t) (attempt c now playback audio_data)).1 t'
send_chunk_refines c t now playback audio_data e b f =
    let (t', runs, o) = offer_refines t (attempt c now playback audio_data) b f in
    (t', send_chunk-offer c t t' now playback audio_data _ e runs, o)
