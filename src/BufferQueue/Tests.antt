-- ===== src/BufferQueue/Tests.antt =====
-- The heap of pkg/sendspin/scheduler.go at concrete queues.
use sendspin_go.Prelude.{ℕ, zero, suc, ◌≡◌, refl, List, [], ◌∷◌, arith}
use sendspin_go.Prelude.Int.{pos}
use sendspin_go.Audio.{Buffer}
use sendspin_go.BufferQueue.{zero_buffer, push}
use sendspin_go.BufferQueue.Order.{IsHeap}

abbrev buffer_at : ℕ → Buffer
buffer_at n = record zero_buffer { play_at = pos n }

abbrev three : List Buffer
three = buffer_at 1 ∷ buffer_at 5 ∷ buffer_at 3 ∷ []

three-IsHeap : IsHeap three
three-IsHeap (suc zero) p l = omega arith
three-IsHeap (suc (suc zero)) p l = omega arith
three-IsHeap zero p l = absurd (omega arith)
three-IsHeap (suc (suc (suc c))) p l = absurd (omega arith)

pushed_first : push three (buffer_at 0) ≡ buffer_at 0 ∷ buffer_at 1 ∷ buffer_at 3 ∷ buffer_at 5 ∷ []
unfolding push
pushed_first = refl
