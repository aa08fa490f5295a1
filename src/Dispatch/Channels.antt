-- ===== src/Dispatch/Channels.antt =====
-- The channels of pkg/protocol/client.go told apart, and the messages for each.
use sendspin_go.Prelude.{
  ℕ, ◌≡◌, refl, sym, ap, ◌∙◌, true, List, [], ◌∷◌, Option, none, some, ◌==◌, ==_iff, if◌then◌else◌,
}
use sendspin_go.Dispatch.{
  MessageChannel, audio_chunks, artwork_chunks, control_msgs, time_sync_resp, stream_start,
  stream_clear, stream_end, server_state, group_update, number, same, Item,
}

of_number : ℕ → MessageChannel
of_number n =
    if n == 0
    then audio_chunks
    else if n == 1
    then artwork_chunks
    else if n == 2
    then control_msgs
    else if n == 3
    then time_sync_resp
    else if n == 4
    then stream_start
    else if n == 5
    then stream_clear
    else if n == 6
    then stream_end
    else if n == 7
    then server_state
    else group_update

of_number-number : (c : MessageChannel) → of_number (number c) ≡ c
unfolding of_number
of_number-number audio_chunks = refl
of_number-number artwork_chunks = refl
of_number-number control_msgs = refl
of_number-number time_sync_resp = refl
of_number-number stream_start = refl
of_number-number stream_clear = refl
of_number-number stream_end = refl
of_number-number server_state = refl
of_number-number group_update = refl

pub same-eq : (a b : MessageChannel) → same a b ≡ true → a ≡ b
same-eq a b h =
    sym (of_number-number a)
    ∙ ap of_number ((==_iff (number a) (number b)).0 h)
    ∙ of_number-number b

abbrev pub waiting : MessageChannel → Option (MessageChannel × Item) → List Item
waiting k none = []
waiting k (some p) = if same p.0 k then p.1 ∷ [] else []
