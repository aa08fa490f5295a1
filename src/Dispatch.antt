-- ===== src/Dispatch.antt =====
-- pkg/protocol/client.go past its handshake: the read loop, which puts each message into the
-- channel of its type, and the goroutines that take from the channels, each from its own. A JSON
-- payload is its number; encoding/json's answers are parameters.
pub mod Channels
pub mod Routed
pub mod Order
mod Tests
use sendspin_go.Prelude.{
  ℕ, Bool, true, false, ◌||◌, List, [], ◌∷◌, ◌++◌, Option, none, some, ltb, ◌==◌, if◌then◌else◌,
  length,
}
use sendspin_go.Prelude.Int.{ℤ}
use sendspin_go.Prelude.Text.{String, str_eq}
use sendspin_go.Wire.{BinaryMessage, parse_binary_message}

pub data MessageChannel : Type 0 where
  audio_chunks artwork_chunks control_msgs time_sync_resp stream_start stream_clear stream_end
        server_state group_update :
      MessageChannel

abbrev pub number : MessageChannel → ℕ
number audio_chunks = 0
number artwork_chunks = 1
number control_msgs = 2
number time_sync_resp = 3
number stream_start = 4
number stream_clear = 5
number stream_end = 6
number server_state = 7
number group_update = 8

abbrev pub same : MessageChannel → MessageChannel → Bool
same a b = number a == number b

-- The capacities that newClient makes the channels with.
unfoldable pub channel_capacity : MessageChannel → ℕ
channel_capacity audio_chunks = 100
channel_capacity artwork_chunks = 10
channel_capacity control_msgs = 10
channel_capacity time_sync_resp = 10
channel_capacity stream_start = 1
channel_capacity stream_clear = 10
channel_capacity stream_end = 1
channel_capacity server_state = 10
channel_capacity group_update = 10

pub data Item : Type 0 where
  audio : ℤ → List ℕ → Item
  artwork : ℕ → ℤ → List ℕ → Item
  json : ℕ → Item

-- A text frame as encoding/json reads it: the type, the payload, whether the payload is one of that
-- type, and whether a server/command has a player part.
pub record Envelope : Type 0 where
  pub message_type : String
  pub payload : ℕ
  pub parses : Bool
  pub has_player : Bool

pub data Incoming : Type 0 where
  binary : List ℕ → Incoming
  text : Option Envelope → Incoming
  other : Incoming

-- The switch of handleJSONMessage.
unfoldable pub channel_of : String → Option MessageChannel
channel_of message_type =
    if str_eq message_type "server/command"
    then some control_msgs
    else if str_eq message_type "server/time"
    then some time_sync_resp
    else if str_eq message_type "stream/start"
    then some stream_start
    else if str_eq message_type "stream/clear"
    then some stream_clear
    else if str_eq message_type "stream/end"
    then some stream_end
    else if str_eq message_type "server/state"
    then some server_state
    else if str_eq message_type "group/update"
    then some group_update
    else none

unfoldable pub route_json : Envelope → Option (MessageChannel × Item)
unfolding channel_of
route_json e = elim (channel_of e.message_type) [
  | none ↦ none
  | some c ↦
      if e.parses
      then if same c control_msgs
        then if e.has_player then some (c, json e.payload) else none
        else some (c, json e.payload)
      else none
]

unfoldable pub route : Incoming → Option (MessageChannel × Item)
unfolding route_json
route (binary bytes) = elim (parse_binary_message bytes) [
  | BinaryMessage.too_short ↦ none
  | BinaryMessage.audio timestamp data' ↦ some (audio_chunks, audio timestamp data')
  | BinaryMessage.artwork channel timestamp data' ↦
      some (artwork_chunks, artwork channel timestamp data')
  | BinaryMessage.unknown t ↦ none
]
route (text none) = none
route (text (some e)) = route_json e
route other = none

-- The channels, what has been taken from each, the message that the read loop is waiting to put into
-- a full channel, and the frames that it has read, oldest first.
pub record Reader : Type 0 where
  pub queues : MessageChannel → List Item
  pub taken : MessageChannel → List Item
  pub pending : Option (MessageChannel × Item)
  pub seen : List Incoming

abbrev pub put_item :
    (MessageChannel → List Item) → MessageChannel → List Item → MessageChannel → List Item
put_item f c items k = if same c k then items else f k

unfoldable pub channel_has_room : Reader → MessageChannel → Bool
unfolding channel_capacity
channel_has_room r c = ltb (length (r.queues c)) (channel_capacity c)

unfoldable pub enqueue : Reader → MessageChannel → Item → Reader
enqueue r c i = record r { queues = put_item r.queues c (r.queues c ++ i ∷ []) }

-- A server/command is dropped at once where its channel is full; any other message waits.
unfoldable pub try_send : Reader → MessageChannel → Item → Reader
unfolding channel_has_room enqueue
try_send r c i =
    if channel_has_room r c
    then enqueue r c i
    else if same c control_msgs
    then r
    else record r { pending = some (c, i) }

-- One frame, which the loop reads only when it is not waiting.
unfoldable pub read_message : Reader → Incoming → Reader
unfolding route try_send
read_message r m = elim r.pending [
  | some p ↦ r
  | none ↦
      let r' = record r { seen = r.seen ++ m ∷ [] } in
      elim (route m) [ none ↦ r' | some p ↦ try_send r' p.0 p.1 ]
]

-- The waiting message finds room.
unfoldable pub retry : Reader → Reader
unfolding channel_has_room enqueue
retry r = elim r.pending [
  | none ↦ r
  | some p ↦ if channel_has_room r p.0 then enqueue (record r { pending = none }) p.0 p.1 else r
]

-- 100 ms have passed: a server/state or group/update is dropped.
unfoldable pub expire : Reader → Reader
expire r = elim r.pending [
  | none ↦ r
  | some p ↦
      if same p.0 server_state || same p.0 group_update then record r { pending = none } else r
]

-- The goroutine that reads a channel takes its oldest message.
unfoldable pub take_from : Reader → MessageChannel → Reader
take_from r c = elim (r.queues c) [
  | [] ↦ r
  | i ∷ items ↦ record r {
    queues = put_item r.queues c items;
    taken = put_item r.taken c (r.taken c ++ i ∷ []);
  }
]

pub data LoopStep : Type 0 where
  receives : Incoming → LoopStep
  retries : LoopStep
  expires : LoopStep
  takes : MessageChannel → LoopStep

unfoldable pub step : Reader → LoopStep → Reader
unfolding read_message retry expire take_from
step r (receives m) = read_message r m
step r retries = retry r
step r expires = expire r
step r (takes c) = take_from r c

unfoldable pub run : List LoopStep → Reader → Reader
unfolding step
run [] r = r
run (s ∷ ss) r = run ss (step r s)
