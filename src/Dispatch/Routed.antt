-- ===== src/Dispatch/Routed.antt =====
-- Which frames are for which channel of pkg/protocol/client.go.
use mathlib.Core.List.{append_assoc, append-nil}
use sendspin_go.Prelude.{
  ℕ, ◌-◌, ◌≡◌, refl, sym, ap, ◌∙◌, inl, inr, true, false, ◌&&◌, ◌||◌, not, List, [], ◌∷◌, ◌++◌,
  Option, none, some, arith, ltb, leb, ◌==◌, ==_iff, if◌then◌else◌, length, get_or, take, drop,
  Bool-cases,
}
use sendspin_go.Prelude.Int.{ℤ}
use sendspin_go.Prelude.Int64.{of_u64}
use sendspin_go.Prelude.Text.{String, str_eq, eq_iff}
use sendspin_go.Wire.{get_u64, parse_binary_message}
use sendspin_go.Dispatch.{
  MessageChannel, audio_chunks, artwork_chunks, control_msgs, time_sync_resp, stream_start,
  stream_clear, stream_end, server_state, group_update, number, same, Item, audio, artwork, json,
  Envelope, Incoming, binary, text, other, channel_of, route_json, route,
}
use sendspin_go.Dispatch.Channels.{waiting}

-- The type of a channel's JSON messages, where it has them.
abbrev pub type_name : MessageChannel → Option String
type_name audio_chunks = none
type_name artwork_chunks = none
type_name control_msgs = some "server/command"
type_name time_sync_resp = some "server/time"
type_name stream_start = some "stream/start"
type_name stream_clear = some "stream/clear"
type_name stream_end = some "stream/end"
type_name server_state = some "server/state"
type_name group_update = some "group/update"

-- The timestamp of a binary frame, after its first byte.
abbrev pub timestamp_of : List ℕ → ℤ
timestamp_of bytes = of_u64 (get_u64 0 (take 8 (drop 1 bytes)))

abbrev pub first_byte : List ℕ → ℕ
first_byte bytes = get_or bytes 0 0

-- The message for a channel in a frame: a JSON text of the channel's type whose payload is one of
-- that type, and for server/command has a player part; or a binary frame of nine bytes or more that
-- begins with 4, for audio, or with 8 to 11, for artwork.
abbrev pub meant : MessageChannel → Incoming → List Item
meant k (binary bytes) =
    if ltb (length bytes) 9
    then []
    else if same k audio_chunks && first_byte bytes == 4
    then audio (timestamp_of bytes) (drop 9 bytes) ∷ []
    else if same k artwork_chunks && (leb 8 (first_byte bytes) && leb (first_byte bytes) 11)
    then artwork (first_byte bytes - 8) (timestamp_of bytes) (drop 9 bytes) ∷ []
    else []
meant k (text none) = []
meant k (text (some e)) = elim (type_name k) [
  | none ↦ []
  | some name ↦
      if str_eq e.message_type name && (e.parses && (e.has_player || not (same k control_msgs)))
      then json e.payload ∷ []
      else []
]
meant k other = []

-- The messages for one channel in the frames.
abbrev pub only : MessageChannel → List Incoming → List Item
only k [] = []
only k (m ∷ ms) = meant k m ++ only k ms

pub only-append :
    (k : MessageChannel) (ms : List Incoming) (m : Incoming)
    → only k (ms ++ m ∷ []) ≡ only k ms ++ meant k m
only-append k [] m = append-nil (meant k m)
only-append k (x ∷ ms) m =
    ap (λ l. meant k x ++ l) (only-append k ms m)
    ∙ sym (append_assoc (meant k x) (only k ms) (meant k m))

same_refl : (k : MessageChannel) → same k k ≡ true
same_refl k = (==_iff (number k) (number k)).1 refl

named_routed :
    (k : MessageChannel) (name : String) (e : Envelope)
    → type_name k ≡ some name
    → channel_of name ≡ some k
    → (str_eq e.message_type name ≡ false → waiting k (route_json e) ≡ [])
    → meant k (text (some e)) ≡ waiting k (route_json e)
unfolding route_json
named_routed k name e named own others = elim (Bool-cases (str_eq e.message_type name)) [
  | inr h ↦ ground (arith, h, named, others h)
  | inl h ↦
      let own_type : channel_of e.message_type ≡ some k =
        ap channel_of ((eq_iff e.message_type name).0 h) ∙ own in
      let itself = same_refl k in ground (arith, h, named, own_type, itself)
]

text_routed :
    (k : MessageChannel) (e : Envelope) → meant k (text (some e)) ≡ waiting k (route_json e)
unfolding route_json channel_of
text_routed audio_chunks e = ground arith
text_routed artwork_chunks e = ground arith
text_routed control_msgs e =
    named_routed control_msgs "server/command" e refl refl (λ h. ground (arith, h))
text_routed time_sync_resp e =
    named_routed time_sync_resp "server/time" e refl refl (λ h. ground (arith, h))
text_routed stream_start e =
    named_routed stream_start "stream/start" e refl refl (λ h. ground (arith, h))
text_routed stream_clear e =
    named_routed stream_clear "stream/clear" e refl refl (λ h. ground (arith, h))
text_routed stream_end e = named_routed stream_end "stream/end" e refl refl (λ h. ground (arith, h))
text_routed server_state e =
    named_routed server_state "server/state" e refl refl (λ h. ground (arith, h))
text_routed group_update e =
    named_routed group_update "group/update" e refl refl (λ h. ground (arith, h))

-- What the read loop routes to a channel is what is meant for it.
pub routed : (k : MessageChannel) (m : Incoming) → meant k m ≡ waiting k (route m)
unfolding route parse_binary_message
routed k (binary bytes) = ground arith
routed k (text none) = refl
routed k (text (some e)) = text_routed k e
routed k other = refl
