-- ===== src/Receiver/Streaming/Messages.antt =====
-- Every sequence of messages that the stream handlers of pkg/sendspin/receiver.go see.
use mathlib.Core.Path.{subst}
use sendspin_go.Prelude.{
  ℕ, suc, ◌≡◌, refl, sym, Bool, true, false, ◌||◌, List, [], ◌∷◌, Option, none, some, arith, length,
  ◌==◌, if◌then◌else◌,
}
use sendspin_go.Prelude.Int.{ℤ}
use sendspin_go.Prelude.Text.{String, str_eq}
use sendspin_go.Roles.{StreamStartPlayer}
use sendspin_go.Receiver.Streaming.{
  Codecs, Receiver, handle_stream_start, handle_audio_chunk, contains_role, for_player,
  clear_scheduler, handle_stream_clear, handle_stream_end, handle_group_update,
}
use sendspin_go.Receiver.Streaming.Current.{Stream, emptied, with_chunk, with_start, Shows}
use sendspin_go.Receiver.Streaming.Streams.{
  clear_scheduler-Shows, handle_audio_chunk-Shows, handle_stream_start-Shows,
}

pub data Event : Type 0 where
  stream_starts : Option StreamStartPlayer → Event
  chunk_arrives : ℤ → List ℕ → Event
  stream_clears : List String → Event
  stream_ends : List String → Event
  group_updates : Option String → Event

unfoldable pub step : Codecs → Receiver → Event → Receiver
step c r (stream_starts start) = handle_stream_start c r start
step c r (chunk_arrives timestamp bytes) = handle_audio_chunk c r timestamp bytes
step c r (stream_clears roles) = handle_stream_clear r roles
step c r (stream_ends roles) = handle_stream_end r roles
step c r (group_updates state) = handle_group_update r state

unfoldable pub run : Codecs → List Event → Receiver → Receiver
unfolding step
run c [] r = r
run c (e ∷ es) r = run c es (step c r e)

-- Whether a list of roles has the player, or is empty.
abbrev pub names_player : List String → Bool
names_player [] = false
names_player (role ∷ roles) = str_eq role "player" || names_player roles

abbrev pub to_player : List String → Bool
to_player roles = length roles == 0 || names_player roles

contains_player : (roles : List String) → contains_role roles "player" ≡ names_player roles
unfolding contains_role
contains_player [] = refl
contains_player (r ∷ roles) = ground (arith, contains_player roles)

for_player_lem : (roles : List String) → for_player roles ≡ to_player roles
unfolding for_player contains_role
for_player_lem [] = refl
for_player_lem (r ∷ roles) = ground (arith, contains_player roles)

-- The current stream after a message.
abbrev pub told : Codecs → Option Stream → Event → Option Stream
told c m (stream_starts none) = m
told c m (stream_starts (some start)) = with_start c m start
told c m (chunk_arrives timestamp bytes) = with_chunk c m timestamp bytes
told c m (stream_clears roles) = if to_player roles then emptied m else m
told c m (stream_ends roles) = m
told c m (group_updates none) = m
told c m (group_updates (some state)) =
    if str_eq state "paused" || str_eq state "stopped" then emptied m else m

abbrev pub told_all : Codecs → Option Stream → List Event → Option Stream
told_all c m [] = m
told_all c m (e ∷ es) = told_all c (told c m e) es

-- A scheduler that is cleared on a condition.
cleared-Shows :
    (c : Codecs) (r : Receiver) (m : Option Stream) (b : Bool)
    → Shows c r m
    → Shows c (if b then clear_scheduler r else r) (if b then emptied m else m)
cleared-Shows c r m true h = clear_scheduler-Shows c r m h
cleared-Shows c r m false h = h

ended-Shows :
    (c : Codecs) (r : Receiver) (m : Option Stream) (b : Bool)
    → Shows c r m
    → Shows c (if b then record r { ended = suc r.ended } else r) m
ended-Shows c r m false h = h
ended-Shows c r none true h = h
ended-Shows c r (some st) true (s, p) = (
  s,
  record {
    decodes = p.decodes;
    formats = p.formats;
    delayed = p.delayed;
    schedules = p.schedules;
    heap = p.heap;
    queued = p.queued;
  },
)

step-Shows :
    (c : Codecs) (r : Receiver) (m : Option Stream) (e : Event)
    → Shows c r m
    → Shows c (step c r e) (told c m e)
unfolding step handle_stream_start handle_stream_clear handle_stream_end handle_group_update
step-Shows c r m (stream_starts none) h = h
step-Shows c r m (stream_starts (some start)) h = handle_stream_start-Shows c r start m h
step-Shows c r m (chunk_arrives timestamp bytes) h =
    handle_audio_chunk-Shows c r timestamp bytes m h
step-Shows c r m (stream_clears roles) h =
    subst
      (λ b. Shows c (if b then clear_scheduler r else r) (if to_player roles then emptied m else m))
      (sym (for_player_lem roles)) (cleared-Shows c r m (to_player roles) h)
step-Shows c r m (stream_ends roles) h = ended-Shows c r m (for_player roles) h
step-Shows c r m (group_updates none) h = h
step-Shows c r m (group_updates (some state)) h =
    cleared-Shows c r m (str_eq state "paused" || str_eq state "stopped") h

-- Through any sequence of messages that are handled one after another, while the scheduler plays
-- nothing, whatever decoders fail to be made and whatever chunks fail to decode: the receiver has a
-- decoder and a scheduler exactly if a stream has started, and they are the last started stream's.
-- The scheduler's queue is a heap of exactly the chunks, in the stream's format and each at its local
-- time with the receiver's static delay, that arrived and decoded to samples since that start and
-- since the last clear, paused or stopped for the player.
pub run-Shows :
    (c : Codecs) (es : List Event) (r : Receiver) (m : Option Stream)
    → Shows c r m
    → Shows c (run c es r) (told_all c m es)
unfolding run
run-Shows c [] r m h = h
run-Shows c (e ∷ es) r m h = run-Shows c es (step c r e) (told c m e) (step-Shows c r m e h)
