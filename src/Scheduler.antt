-- ===== src/Scheduler.antt =====
-- pkg/sendspin/scheduler.go: the client's playback scheduler. Times are nanoseconds. The counters
-- are plain numbers of chunks. The loop of processQueue gives up its lock for each send: what other
-- goroutines do to the scheduler there, and how the send ends, are arguments of the model.
pub mod Steps
pub mod Window
pub mod Tick
mod Tests
use sendspin_go.Prelude.{
  ℕ, zero, suc, ◌+◌, ◌*◌, Bool, true, false, ◌||◌, List, [], ◌∷◌, ◌++◌, if◌then◌else◌, length,
}
use sendspin_go.Prelude.Int.{ℤ, pos, negsuc, ◌+ℤ◌, ◌-ℤ◌, ltb_ℤ, leb_ℤ, quot_ℤ}
use sendspin_go.Prelude.Int64.{max_int64, min_int64, mul64}
use sendspin_go.Audio.{Buffer}
use sendspin_go.BufferQueue.{push, pop, peek}

-- maxStaticDelayMs, ChunkDurationMs, 50 ms and -50 ms
abbrev pub max_static_delay_ms : ℤ
max_static_delay_ms = pos 5000

abbrev pub chunk_duration_ms : ℕ
chunk_duration_ms = 20

abbrev pub window : ℤ
window = pos 50_000_000

abbrev pub minus_window : ℤ
minus_window = negsuc 49_999_999

pub record Scheduler : Type 0 where
  pub buffer_q : List Buffer
  pub buffering : Bool
  pub buffer_target : ℤ
  pub static_delay : ℤ
  pub received : ℕ
  pub played : ℕ
  pub dropped : ℕ
  -- what was sent on the output channel, oldest first
  pub output : List Buffer

pub clamp_static_delay : ℤ → ℤ
clamp_static_delay ms =
    if ltb_ℤ ms (pos 0) || ltb_ℤ max_static_delay_ms ms
    then if ltb_ℤ ms (pos 0) then pos 0 else max_static_delay_ms
    else ms

unfoldable pub new_scheduler : ℤ → ℤ → Scheduler
unfolding clamp_static_delay
new_scheduler buffer_ms static_delay_ms =
    let target = quot_ℤ buffer_ms chunk_duration_ms in
    record {
      buffer_q = [];
      buffering = true;
      buffer_target = if ltb_ℤ target (pos 1) then pos 1 else target;
      static_delay = mul64 (clamp_static_delay static_delay_ms) (pos 1_000_000);
      received = 0;
      played = 0;
      dropped = 0;
      output = [];
    }

-- Time.Sub: the difference as a Duration, held at the ends of its range.
pub saturate : ℤ → ℤ
saturate d = if ltb_ℤ max_int64 d then max_int64 else if ltb_ℤ d min_int64 then min_int64 else d

pub time_sub : ℤ → ℤ → ℤ
unfolding saturate
time_sub t u = saturate (t -ℤ u)

pub data Timing : Type 0 where
  early late ready : Timing

-- The three-way test of the loop of processQueue.
pub classify : Buffer → ℤ → Timing
unfolding time_sub
classify buf now =
    let delay = time_sub buf.play_at now in
    if ltb_ℤ window delay
    then Timing.early
    else if ltb_ℤ delay minus_window
    then Timing.late
    else Timing.ready

unfoldable pub clear : Scheduler → Scheduler
clear s = record s { buffer_q = []; buffering = true }

-- BufferDepth
pub buffer_depth : Scheduler → ℕ
buffer_depth s = length s.buffer_q * chunk_duration_ms

pub drop_late : Scheduler → Scheduler
drop_late s = record s { buffer_q = (pop s.buffer_q).1; dropped = s.dropped + 1 }

pub take_ready : Scheduler → Scheduler
take_ready s = record s { buffer_q = (pop s.buffer_q).1 }

pub emit : Buffer → Scheduler → Scheduler
emit buf s = record s { played = s.played + 1; output = s.output ++ buf ∷ [] }

-- What another goroutine does while processQueue sends.
pub data Call : Type 0 where
  schedules : Buffer → Call
  clears : Call

-- How a send ends: the channel took the buffer, and these calls were made before the lock was
-- taken again; or the context was cancelled.
pub data Send : Type 0 where
  accepted : List Call → Send
  cancelled : Send

-- How processQueue ends: at its end, still filling up, cancelled, in a send that waits for good, or
-- in the model out of fuel.
pub data Ending : Type 0 where
  finished filling stopped : Ending
  blocked : Buffer → Ending
  exhausted : Ending

-- `to_local` is ServerToLocalTime of the clock synchronisation, from server microseconds.
module _ (to_local : ℤ → ℤ) where
  abbrev pub timed : ℤ → Buffer → Buffer
  timed static_delay buf = record buf { play_at = to_local buf.timestamp +ℤ static_delay }

  unfoldable pub schedule : Scheduler → Buffer → Scheduler
  schedule s buf = record s {
    received = s.received + 1;
    buffer_q = push s.buffer_q (timed s.static_delay buf);
  }

  pub interfere : List Call → Scheduler → Scheduler
  unfolding schedule clear
  interfere [] s = s
  interfere (schedules buf ∷ calls) s = interfere calls (schedule s buf)
  interfere (clears ∷ calls) s = interfere calls (clear s)

  -- The loop of processQueue, with the answers to its sends.
  pub process_loop : ℕ → List Send → ℤ → Scheduler → Ending × Scheduler
  unfolding classify drop_late take_ready emit interfere
  process_loop zero env now s = (Ending.exhausted, s)
  process_loop (suc k) env now s = elim s.buffer_q [
    | [] ↦ (Ending.finished, s)
    | buf ∷ rest ↦ elim (classify buf now) [
      | early ↦ (Ending.finished, s)
      | late ↦ process_loop k env now (drop_late s)
      | ready ↦ elim env [
        | [] ↦ (Ending.blocked buf, take_ready s)
        | answer ∷ env' ↦ elim answer [
          | cancelled ↦ (Ending.stopped, take_ready s)
          | accepted calls ↦ process_loop k env' now (interfere calls (emit buf (take_ready s)))
        ]
      ]
    ]
  ]

  pub process_queue : ℕ → List Send → ℤ → Scheduler → Ending × Scheduler
  unfolding process_loop
  process_queue k env now s =
      let full = leb_ℤ s.buffer_target (pos (length s.buffer_q)) in
      let run = process_loop k env now (record s { buffering = false }) in
      let filled = if full then run else (Ending.filling, s) in
      let running = process_loop k env now s in if s.buffering then filled else running
