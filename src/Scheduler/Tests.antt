-- ===== src/Scheduler/Tests.antt =====
-- Ticks of the scheduler of pkg/sendspin/scheduler.go at concrete queues.
use sendspin_go.Prelude.{ℕ, zero, suc, ◌*◌, ◌≡◌, refl, false, List, [], ◌∷◌, arith}
use sendspin_go.Prelude.Int.{ℤ, pos}
use sendspin_go.Audio.{Buffer}
use sendspin_go.BufferQueue.{zero_buffer}
use sendspin_go.BufferQueue.Order.{IsHeap}
use sendspin_go.Scheduler.{
  Scheduler, schedules, clears, Send, accepted, cancelled, Ending, process_queue,
}
use sendspin_go.Scheduler.Window.{Sound, process_queue-Sound}
use sendspin_go.Scheduler.Tick.{Ticked, quiet, quiet_tick}

abbrev at_ms : ℕ → Buffer
at_ms n = record zero_buffer { play_at = pos (n * 1_000_000) }

-- At 1000 ms the first is late, the second is ready and the third is early.
abbrev queued : List Buffer
queued = at_ms 900 ∷ at_ms 990 ∷ at_ms 2000 ∷ []

abbrev playing : Scheduler
playing = record {
  buffer_q = queued;
  buffering = false;
  buffer_target = pos 2;
  static_delay = pos 0;
  received = 3;
  played = 0;
  dropped = 0;
  output = [];
}

abbrev now : ℤ
now = pos 1_000_000_000

abbrev to_local : ℤ → ℤ
to_local t = t

queued-IsHeap : IsHeap queued
queued-IsHeap (suc zero) p l = omega arith
queued-IsHeap (suc (suc zero)) p l = omega arith
queued-IsHeap zero p l = absurd (omega arith)
queued-IsHeap (suc (suc (suc c))) p l = absurd (omega arith)

abbrev answers : List Send
answers = accepted (clears ∷ schedules (at_ms 990) ∷ []) ∷ cancelled ∷ []

process_queue-Sound_example : Sound now playing (process_queue to_local 9 answers now playing).1
process_queue-Sound_example = process_queue-Sound to_local 9 now answers playing queued-IsHeap

quiet_tick_example :
    ((process_queue to_local 4 (quiet 3) now playing).0 ≡ Ending.finished)
    × Ticked now playing (process_queue to_local 4 (quiet 3) now playing).1
quiet_tick_example =
    quiet_tick to_local 4 3 now playing refl queued-IsHeap (omega arith) (omega arith)
