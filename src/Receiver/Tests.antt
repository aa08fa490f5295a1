-- ===== src/Receiver/Tests.antt =====
-- The receiver of pkg/sendspin/receiver.go on concrete messages.
use sendspin_go.Prelude.{
  ◌≡◌, ◌≢◌, refl, ap, inl, inr, true, false, List, [], ◌∷◌, none, some, arith, length,
}
use sendspin_go.Prelude.Int.{ℤ, pos, ◌-ℤ◌}
use sendspin_go.Prelude.Int64.{sub64, wrap64, to_u64, of_u64}
use sendspin_go.Prelude.Text.{String}
use sendspin_go.Roles.{ServerClient, negotiate_codec, StreamStartPlayer}
use sendspin_go.Receiver.Metadata.{
  MetadataState, Metadata, Display, merged, has_field, listed, merge, drain_pending_metadata,
}
use sendspin_go.Receiver.Metadata.Pending as Pending
use sendspin_go.Receiver.Metadata.Pending.{
  Event, arrives, ticks, controls, IsQueue, run-IsQueue, due, later, apply_all,
  drain_pending_metadata_lem,
}
use sendspin_go.Receiver.Metadata.Order.{run-same_time, run-overtaken}
use sendspin_go.Receiver.Formats.{all_formats, within, build_supported_formats}
use sendspin_go.Receiver.Formats.Negotiated.{select, of_codec, preferred-chosen, preferred-pcm}
use sendspin_go.Receiver.TimeSync.{
  Sample, Reply, send_failed, responds, timed_out, rtt, run_time_sync_burst,
}
use sendspin_go.Receiver.TimeSync.Shortest.{responses, picked, run_time_sync_burst_lem}
use sendspin_go.Receiver.Streaming.{Codecs, Receiver}
use sendspin_go.Receiver.Streaming.Current.{Shows}
use sendspin_go.Receiver.Streaming.Messages as Messages
use sendspin_go.Receiver.Streaming.Messages.{
  stream_starts, chunk_arrives, stream_clears, group_updates, told_all, run-Shows,
}

-- A diff of the title alone.
abbrev titled : String → ℤ → MetadataState
titled title timestamp = record {
  timestamp = timestamp;
  title = some title;
  artist = none;
  album_artist = none;
  album = none;
  artwork_url = none;
  year = none;
  track = none;
  progress = none;
  repeat = none;
  shuffle = none;
  present_keys = some ("timestamp" ∷ "title" ∷ []);
}

abbrev blank : Metadata
blank = record {
  title = "";
  artist = "";
  album = "";
  album_artist = "";
  artwork_url = "";
  track = pos 0;
  year = pos 0;
  duration = pos 0;
  repeat = "";
  shuffle = false;
}

abbrev idle : Display
idle = record { on_metadata = true; merged_metadata = blank; pending_metadata = []; shown = [] }

abbrev events : List Event
events =
    arrives (titled "B" (pos 300)) (pos 100)
    ∷ arrives (titled "A" (pos 200)) (pos 100)
    ∷ controls "all" true
    ∷ ticks (pos 250)
    ∷ []

run-IsQueue_example : IsQueue (Pending.run events idle)
run-IsQueue_example = run-IsQueue events idle (record { ascending = tt; timed = tt })

abbrev two_wait : Display
two_wait = record idle { pending_metadata = titled "A" (pos 200) ∷ titled "B" (pos 300) ∷ [] }

drain_pending_metadata_lem_example :
    drain_pending_metadata two_wait (pos 250)
    ≡ record (apply_all (due two_wait.pending_metadata (pos 250)) two_wait) {
      pending_metadata = later two_wait.pending_metadata (pos 250);
    }
drain_pending_metadata_lem_example =
    drain_pending_metadata_lem two_wait (pos 250) ((omega arith, tt), (tt, tt))

run-same_time_example :
    (Pending.run
      (arrives (titled "old" (pos 200)) (pos 100)
        ∷ arrives (titled "new" (pos 200)) (pos 110)
        ∷ ticks (pos 250)
        ∷ [])
      idle).merged_metadata
    ≡ merged (merged blank (titled "new" (pos 200))) (titled "old" (pos 200))
run-same_time_example =
    run-same_time idle refl (titled "old" (pos 200)) (titled "new" (pos 200)) (pos 100) (pos 110)
      (pos 250) (omega arith) refl (omega arith) (omega arith) (omega arith)

-- The older title is what is shown.
old_title : (merged (merged blank (titled "new" (pos 200))) (titled "old" (pos 200))).title ≡ "old"
unfolding merged has_field listed merge
old_title = refl

run-overtaken_example :
    (Pending.run
      (arrives (titled "old" (pos 200)) (pos 100)
        ∷ arrives (titled "new" (pos 220)) (pos 230)
        ∷ ticks (pos 250)
        ∷ [])
      idle).merged_metadata
    ≡ merged (merged blank (titled "new" (pos 220))) (titled "old" (pos 200))
run-overtaken_example =
    run-overtaken idle refl (titled "old" (pos 200)) (titled "new" (pos 220)) (pos 100) (pos 230)
      (pos 250) (omega arith) (omega arith) (omega arith) (omega arith) (omega arith)

abbrev client : String → ServerClient
client codec = record {
  id = "kitchen";
  name = "Kitchen";
  roles = "player@v1" ∷ [];
  capabilities = some (record {
    supported_formats = build_supported_formats codec (pos 0) (pos 0);
    buffer_capacity = pos 500_000;
  });
  codec = "";
  opus_encoder = none;
  flac_encoder = none;
  resampler = none;
  buffer_tracker = none;
  send_chan = [];
}

preferred-pcm_example : negotiate_codec (client "pcm") (pos 48000) ≡ "flac"
preferred-pcm_example =
    preferred-pcm (client "pcm") (pos 0) (pos 0) (pos 48000) refl (inl refl) (inl (omega arith))
      (inl (omega arith))

opus_left : select (of_codec "opus") (select (within (pos 0) (pos 0)) all_formats) ≢ []
unfolding within
opus_left e = absurd (omega (arith, ap length e))

preferred-chosen_example : negotiate_codec (client "opus") (pos 48000) ≡ "opus"
preferred-chosen_example =
    preferred-chosen (client "opus") "opus" (pos 0) (pos 0) (pos 48000) refl (inr refl) opus_left

-- Round trips of 100 and 40 µs.
abbrev slow : Sample
slow = record {
  client_transmitted = pos 1000;
  server_received = pos 5000;
  server_transmitted = pos 5010;
  t4 = pos 1110;
}

abbrev fast : Sample
fast = record {
  client_transmitted = pos 2000;
  server_received = pos 6000;
  server_transmitted = pos 6010;
  t4 = pos 2050;
}

abbrev replies : List Reply
replies = responds slow ∷ timed_out ∷ responds fast ∷ send_failed ∷ []

rtt-slow : rtt slow ≡ pos 100
unfolding rtt sub64 wrap64 to_u64 of_u64 ◌-ℤ◌
rtt-slow = refl

rtt-fast : rtt fast ≡ pos 40
unfolding rtt sub64 wrap64 to_u64 of_u64 ◌-ℤ◌
rtt-fast = refl

run_time_sync_burst_lem_example : run_time_sync_burst replies ≡ picked (responses replies)
run_time_sync_burst_lem_example =
    run_time_sync_burst_lem replies (tt, (tt, (tt, (tt, tt))))
      (rw rtt-slow (omega arith), (rw rtt-fast (omega arith), tt))

abbrev codecs : Codecs
codecs = record {
  decoder_factory = none;
  new_pcm = λ f. some 0;
  new_opus = λ f. none;
  new_flac = λ f. some 1;
  decode = λ d bytes. some bytes;
  decode_base64 = λ s. none;
  server_to_local = λ t. t;
}

abbrev receiver : Receiver
receiver = record {
  buffer_ms = pos 500;
  static_delay_ms = pos 0;
  decoder = none;
  format = record {
    codec = "";
    sample_rate = pos 0;
    channels = pos 0;
    bit_depth = pos 0;
    codec_header = [];
  };
  scheduler = none;
  errors = 0;
  started = [];
  ended = 0;
}

abbrev pcm_stream : StreamStartPlayer
pcm_stream = record {
  codec = "pcm";
  sample_rate = pos 48000;
  channels = pos 2;
  bit_depth = pos 24;
  codec_header = "";
}

abbrev messages : List Messages.Event
messages =
    chunk_arrives (pos 900) (1 ∷ [])
    ∷ stream_starts (some pcm_stream)
    ∷ chunk_arrives (pos 1000) (1 ∷ 2 ∷ [])
    ∷ stream_starts (some (record pcm_stream { codec = "opus" }))
    ∷ group_updates (some "paused")
    ∷ chunk_arrives (pos 2000) (3 ∷ [])
    ∷ stream_clears []
    ∷ []

run-Shows_example :
    Shows codecs (Messages.run codecs messages receiver) (told_all codecs none messages)
run-Shows_example = run-Shows codecs messages receiver none (refl, refl)
