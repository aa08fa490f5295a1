-- ===== src/Group.antt =====
-- pkg/sendspin/group.go: the event bus and the members of a playback group. Every operation runs
-- under the group's lock, so a history is a sequence of operations. `none` is a run-time panic: a
-- send on a closed channel, or a second close. A ServerClient is a number that stands for its
-- pointer, beside its ID and name. `published` and `updates` are the events given out and the
-- group/update messages handed to the clients' Send so far; Send drops one where the client's queue
-- is full.
pub mod Invariant
pub mod Steps
pub mod Membership
pub mod Rejoin
mod Tests
use sendspin_go.Prelude.{
  ℕ, zero, suc, ◌+◌, Bool, true, false, ◌||◌, not, List, [], ◌∷◌, ◌++◌, Option, none, some,
  if◌then◌else◌, ltb, ◌==◌, length,
}
use sendspin_go.Prelude.Int.{ℤ}
use sendspin_go.Prelude.Text.{String, str_eq}

pub record Client : Type 0 where
  pub pointer : ℕ
  pub id : String
  pub name : String

pub data Event : Type 0 where
  client_joined : Client → Event
  client_left : String → String → Event
  client_state_changed : Client → String → ℤ → Bool → Event
  playback_state_changed : String → String → Event

-- A channel of events with 32 places.
pub record Channel : Type 0 where
  pub queue : List Event
  pub is_open : Bool

abbrev pub channel_size : ℕ
channel_size = 32

-- protocol.GroupUpdate, for the client that it is sent to
pub record GroupUpdate : Type 0 where
  pub recipient : ℕ
  pub group_id : String
  pub playback_state : String

-- `subs` are the keys of the map of subscribers, and `channels` their channels by key.
pub record Group : Type 0 where
  pub id : String
  pub playback_state : String
  pub clients : List Client
  pub subs : List ℕ
  pub channels : ℕ → Channel
  pub next_sub : ℕ
  pub closed : Bool
  pub published : List Event
  pub updates : List GroupUpdate

abbrev pub new_channel : Channel
new_channel = record { queue = []; is_open = true }

-- A channel that is not made yet reads as a closed one.
unfoldable pub new_group : String → Group
new_group id = record {
  id = id;
  playback_state = "playing";
  clients = [];
  subs = [];
  channels = λ i. record { queue = []; is_open = false };
  next_sub = 0;
  closed = false;
  published = [];
  updates = [];
}

pub write : (ℕ → Channel) → ℕ → Channel → ℕ → Channel
write m i c j = if i == j then c else m j

-- The key of the channel handed out, or none for the closed channel of a closed group.
pub subscribe : Group → Option ℕ × Group
unfolding write
subscribe g = if g.closed then (none, g) else (
  some g.next_sub,
  record g {
    subs = g.next_sub ∷ g.subs;
    channels = write g.channels g.next_sub new_channel;
    next_sub = g.next_sub + 1;
  },
)

pub close_channel : Channel → Option Channel
close_channel c = if c.is_open then some (record c { is_open = false }) else none

pub contains : List ℕ → ℕ → Bool
contains [] i = false
contains (j ∷ js) i = j == i || contains js i

pub delete : List ℕ → ℕ → List ℕ
delete [] i = []
delete (j ∷ js) i = if j == i then js else j ∷ delete js i

-- The function that Subscribe returns; a second call finds no such key.
pub unsubscribe : Group → ℕ → Option Group
unfolding write close_channel contains delete
unsubscribe g i =
    let closed : Option Group = elim (close_channel (g.channels i)) [
      | none ↦ none
      | some c ↦ some (record g { subs = delete g.subs i; channels = write g.channels i c })
    ] in
    if contains g.subs i then closed else some g

-- A non-blocking send: a full channel drops the event.
pub offer : Channel → Event → Option Channel
offer c e =
    if not c.is_open
    then none
    else if ltb (length c.queue) channel_size
    then some (record c { queue = c.queue ++ e ∷ [] })
    else some c

pub fan_out : List ℕ → (ℕ → Channel) → Event → Option (ℕ → Channel)
unfolding offer write
fan_out [] m e = some m
fan_out (i ∷ is) m e = elim (offer (m i) e) [ none ↦ none | some c ↦ fan_out is (write m i c) e ]

pub publish : Group → Event → Option Group
unfolding fan_out
publish g e =
    let sent : Option Group = elim (fan_out g.subs g.channels e) [
      | none ↦ none
      | some m ↦ some (record g { channels = m; published = g.published ++ e ∷ [] })
    ] in
    if g.closed then some g else sent

unfoldable pub has_client : List Client → String → Bool
has_client [] id = false
has_client (c ∷ cs) id = str_eq c.id id || has_client cs id

unfoldable pub delete_client : List Client → String → List Client
delete_client [] id = []
delete_client (c ∷ cs) id = if str_eq c.id id then cs else c ∷ delete_client cs id

pub add_client : Group → Client → Option Group
unfolding has_client publish
add_client g c =
    let update : GroupUpdate = record {
      recipient = c.pointer;
      group_id = g.id;
      playback_state = if str_eq g.playback_state "" then "playing" else g.playback_state;
    } in
    if g.closed
    then some g
    else if has_client g.clients c.id
    then some g
    else publish (record g { clients = c ∷ g.clients; updates = g.updates ++ update ∷ [] })
        (client_joined c)

pub remove_client : Group → Client → Option Group
unfolding has_client delete_client publish
remove_client g c =
    if not (has_client g.clients c.id)
    then some g
    else publish (record g { clients = delete_client g.clients c.id }) (client_left c.id c.name)

pub close_all : List ℕ → (ℕ → Channel) → Option (ℕ → Channel)
unfolding close_channel write
close_all [] m = some m
close_all (i ∷ is) m = elim (close_channel (m i)) [
  | none ↦ none
  | some c ↦ close_all is (write m i c)
]

pub close : Group → Option Group
unfolding close_all
close g =
    let shut : Option Group = elim (close_all g.subs g.channels) [
      | none ↦ none
      | some m ↦ some (record g { closed = true; channels = m; subs = []; clients = [] })
    ] in
    if g.closed then some g else shut

pub set_playback_state : Group → String → Option Group
unfolding publish
set_playback_state g state =
    if str_eq g.playback_state state
    then some g
    else publish (record g { playback_state = state })
        (playback_state_changed g.playback_state state)

-- A subscriber takes the oldest event of its channel, if there is one.
pub receive : Group → ℕ → Group
unfolding write
receive g i = elim (g.channels i).queue [
  | [] ↦ g
  | e ∷ es ↦ record g { channels = write g.channels i (record (g.channels i) { queue = es }) }
]

pub data Op : Type 0 where
  subscribes closes : Op
  unsubscribes receives : ℕ → Op
  publishes : Event → Op
  adds removes : Client → Op
  sets_playback_state : String → Op

pub step : Group → Op → Option Group
unfolding subscribe unsubscribe publish add_client remove_client close set_playback_state receive
step g subscribes = some (subscribe g).1
step g closes = close g
step g (unsubscribes i) = unsubscribe g i
step g (receives i) = some (receive g i)
step g (publishes e) = publish g e
step g (adds c) = add_client g c
step g (removes c) = remove_client g c
step g (sets_playback_state state) = set_playback_state g state

pub run : Group → List Op → Option Group
unfolding step
run g [] = some g
run g (op ∷ ops) = elim (step g op) [ none ↦ none | some g' ↦ run g' ops ]
