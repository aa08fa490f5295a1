-- ===== src/Dispatch/Tests.antt =====
-- Runs of the read loop and its channels.
use sendspin_go.Prelude.{◌≡◌, refl, [], ◌∷◌, none, some, true, false}
use sendspin_go.Dispatch.{
  stream_end, Reader, json, LoopStep, receives, retries, takes, text, step, run, route, route_json,
  channel_of, read_message, channel_has_room, channel_capacity, enqueue, try_send,
}
use sendspin_go.Dispatch.Order.{InWireOrder, run-InWireOrder}

abbrev idle : Reader
idle = record { queues = λ c. []; taken = λ c. []; pending = none; seen = [] }

abbrev ended : LoopStep
ended = receives (
    text
      (some record { message_type = "stream/end"; payload = 5; parses = true; has_player = false }))

-- The second stream/end waits, as its channel holds one.
run-InWireOrder_example :
    InWireOrder stream_end (run (ended ∷ ended ∷ takes stream_end ∷ retries ∷ []) idle)
run-InWireOrder_example =
    run-InWireOrder stream_end refl (ended ∷ ended ∷ takes stream_end ∷ retries ∷ []) idle refl

second_waits : (run (ended ∷ ended ∷ []) idle).pending ≡ some (stream_end, json 5)
unfolding run step read_message route route_json channel_of try_send channel_has_room
    channel_capacity enqueue
second_waits = refl
