-- ===== src/Lib.antt =====
-- Sendspin: synchronised audio streaming from a server to players, after the Go sources under pkg/.
--
-- The server (pkg/sendspin/server.go) admits connections, puts each client into its group
-- (pkg/sendspin/group.go), whose event bus tells the roles of joins and leaves, and streams audio in
-- ticks of 20 ms (pkg/sendspin/server_stream.go), half a second ahead of playback. For each client a
-- buffer tracker (pkg/sendspin/buffer_tracker.go) bounds what is sent ahead. A player reads the
-- binary frames (pkg/protocol/client.go), decodes the samples (pkg/audio) and plays them by a
-- scheduler over a heap (pkg/sendspin/scheduler.go). The server also dials clients that it
-- discovers (pkg/sendspin/client_dialer.go).
--
-- A player (pkg/sendspin/player.go) composes a receiver (pkg/sendspin/receiver.go), which turns the
-- server's messages into scheduled chunks and metadata, with an output (pkg/audio/output), whose
-- ring buffer stands between the scheduler and the audio callback. Its formats, advertised by the
-- receiver, are what the server's negotiation picks from.
--
-- Files:
--   Prelude        numbers, lists, options, int64 with its wrap-around, strings, maps
--   BufferTracker  buffer_tracker.go, and the use that generateAndSendChunk makes of it (offer)
--   Audio          pkg/audio/types.go, pkg/audio/decode/pcm.go, encodePCM and convertToInt16
--   Wire           CreateAudioChunk and CreateArtworkChunk, handleBinaryMessage
--   BufferQueue    BufferQueue of scheduler.go under container/heap
--   Scheduler      scheduler.go: Schedule, processQueue, Clear
--   ClientDialer   client_dialer.go: claim, release, the run loop with its dials under way
--   Group          group.go: subscribers, members, events
--   Roles          server_client.go, role_player.go, negotiateCodec, activateRoles
--   RoleState      role_metadata.go and role_controller.go: snapshots and broadcasts
--   Stream         generateAndSendChunk and notifyStreamEnd
--   Connection     handleConnection and removeClient of server.go, and server_dispatch.go
--   Output         pkg/audio/output: RingBuffer, Malgo (Write, dataCallback, Open, volume), Device
--                  (matchDevice, capsFromFormats)
--   Receiver       receiver.go: Streaming (stream and group messages), Metadata, Formats
--                  (buildSupportedFormats), TimeSync (runTimeSyncBurst)
--   Player         player.go: volume, mute, streams, external source, Reconnect
--   Handshake      pkg/protocol/client.go: handshake and buildSupportedRoles
--   Dispatch       pkg/protocol/client.go: the read loop and its channels
--   Config         config_common.go (Overlay, Yaml), client_id.go (ClientId)
-- A Go method `addClient` is `add_client` in the module of its file. A struct is a record of the
-- fields that the modelled code reads or writes; a run-time panic is `none`; a mutex makes each
-- operation one step, and where the code gives a lock up in between (processQueue, the stages of a
-- connection) other goroutines' steps are an argument or interleave.
--
-- Bounds and fuel: times, durations and byte counts are int64 with its wrap-around where the code
-- adds or multiplies them; lengths and counters are plain numbers. The loops of the heap run on fuel
-- of one more than the length of the queue, and the loop of PruneConsumed on its own count. The loop
-- of processQueue takes its fuel as an argument; more than the length of the queue is enough for a
-- tick that nobody disturbs. Binary search runs on fuel of the length of its range. Loops that wait,
-- Malgo.Write and reconnectWithBackoff, run on the list of what each round meets.
--
-- Not modelled: the clock filter, the resampler and the scaling of samples (float64), the Opus, FLAC
-- and miniaudio libraries, websockets, JSON, YAML, mDNS, the terminal interface, the programs, and
-- the discovery and start-up of pkg/sendspin. The clock conversion, the resampler, what the encoders
-- and the audio library answer, and what multiplies by a float64 are parameters.
pub mod Prelude
pub mod BufferTracker
pub mod Audio
pub mod Output
pub mod Wire
pub mod BufferQueue
pub mod Scheduler
pub mod ClientDialer
pub mod Group
pub mod Roles
pub mod RoleState
pub mod Stream
pub mod Connection
pub mod Receiver
pub mod Player
pub mod Handshake
pub mod Dispatch
pub mod Config
