-- ===== src/Stream/Tests.antt =====
-- Ticks of the stream of pkg/sendspin/server_stream.go at a concrete client, and its theorems there.
use sendspin_go.Prelude.{
  ℕ, ◌≡◌, refl, List, [], ◌∷◌, Option, some, none, arith, if◌then◌else◌, replicate,
}
use sendspin_go.Prelude.Int.{ℤ, pos, int_laws}
use sendspin_go.BufferTracker.{BufferTracker, new}
use sendspin_go.BufferTracker.Contents.{contents}
use sendspin_go.BufferTracker.Budget.{Fits, new-WithinBudget}
use sendspin_go.BufferTracker.Offers.{attempt_queue, Offered}
use sendspin_go.Wire.{create_audio_chunk}
use sendspin_go.Wire.RoundTrip.{length-create_audio_chunk}
use sendspin_go.Roles.{ServerClient, binary}
use sendspin_go.Roles.Player.{Matches, flac-Fitting}
use sendspin_go.Stream.{
  Server, got, send_chunk, serve, serve_all, encode_for, generate_and_send_chunk,
}
use sendspin_go.Stream.Chunk.{tracked_chunk, attempt, send_chunk_refines}
use sendspin_go.Stream.Errors.{fail_all, ended, fail_all_lem}

abbrev client : ServerClient
client = record {
  id = "kitchen";
  name = "Kitchen";
  roles = "player" ∷ [];
  capabilities = none;
  codec = "flac";
  opus_encoder = none;
  flac_encoder = some 7;
  resampler = none;
  buffer_tracker = some (new 2 (pos 1000));
  send_chan = [];
}

abbrev flac : ℕ → List ℕ → Option (List ℕ)
flac e samples = some (1 ∷ 2 ∷ samples)

abbrev opus : ℕ → List ℕ → Option (List ℕ)
opus e samples = none

abbrev copy : ℕ → List ℕ → List ℕ
copy r samples = samples

client-Fits : Fits (new 2 (pos 1000)) (tracked_chunk (pos 500_000) (1 ∷ 2 ∷ []))
unfolding new
client-Fits = omega (arith, int_laws, length-create_audio_chunk (pos 500_000) (1 ∷ 2 ∷ []))

send_chunk_refines_example :
    (t' : BufferTracker) × (send_chunk client (pos 0) (pos 500_000) (1 ∷ 2 ∷ [])
      ≡ some (record client {
        buffer_tracker = some t';
        send_chan =
            if (attempt_queue
              (new 2 (pos 1000))
              (contents (new 2 (pos 1000)))
              (attempt client (pos 0) (pos 500_000) (1 ∷ 2 ∷ []))).0
            then binary (create_audio_chunk (pos 500_000) (1 ∷ 2 ∷ [])) ∷ []
            else [];
      }))
    × Offered
        (new 2 (pos 1000))
        (attempt_queue
          (new 2 (pos 1000))
          (contents (new 2 (pos 1000)))
          (attempt client (pos 0) (pos 500_000) (1 ∷ 2 ∷ []))).1
        t'
send_chunk_refines_example =
    send_chunk_refines client (new 2 (pos 1000)) (pos 0) (pos 500_000) (1 ∷ 2 ∷ []) refl
      (new-WithinBudget 2 (pos 1000) (omega arith) (omega arith)) client-Fits

-- Fifty failures in a row, after a read that succeeded with 48 of them before it.
abbrev lone_client : ServerClient
lone_client = record client { buffer_tracker = none; codec = "opus"; opus_encoder = none }

abbrev fifty : List ℤ
fifty = replicate 50 (pos 20_000)

lone_server : Server
lone_server = record { clients = lone_client ∷ []; consecutive_read_errs = 48 }

lone_server-got :
    generate_and_send_chunk opus flac copy lone_server (pos 0) (got (1 ∷ 2 ∷ []))
    ≡ some (record { clients = lone_client ∷ []; consecutive_read_errs = 0 })
unfolding lone_server generate_and_send_chunk serve_all serve encode_for
lone_server-got = refl

fail_all_lem_example :
    fail_all opus flac copy (record { clients = lone_client ∷ []; consecutive_read_errs = 0 }) fifty
    ≡ some (record { clients = ended lone_client ∷ []; consecutive_read_errs = 50 })
fail_all_lem_example =
    fail_all_lem opus flac copy lone_server
      (record { clients = lone_client ∷ []; consecutive_read_errs = 0 }) (pos 0) (1 ∷ 2 ∷ []) fifty
      lone_server-got

client-Matches : Matches (pos 48_000) "flac" none (some 7) none
client-Matches = flac-Fitting (pos 48_000) 7
