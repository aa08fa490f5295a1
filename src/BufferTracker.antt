-- ===== src/BufferTracker.antt =====
-- pkg/sendspin/buffer_tracker.go: the ring of chunks that a client has been sent and has not yet
-- played, and the use that generateAndSendChunk (pkg/sendspin/server_stream.go) makes of it.
-- `none` is a run-time panic (an index out of range). Indices and counts of the ring are plain
-- numbers: the ring is held in memory, so `int` does not overflow on them. Byte counts, durations
-- and times are int64 with its wrap-around.
pub mod Contents
pub mod Prune
pub mod Register
pub mod Budget
pub mod Offers
mod Tests
use sendspin_go.Prelude.{
  ℕ, zero, suc, ◌+◌, ◌-◌, ◌*◌, ◌%◌, Bool, true, false, List, Option, none, some, ltb, leb, ◌==◌,
  if◌then◌else◌, length, get_elem?, set, replicate,
}
use sendspin_go.Prelude.Int.{ℤ, pos, ltb_ℤ, leb_ℤ}
use sendspin_go.Prelude.Int64.{add64, sub64}

-- DefaultMaxBufferDurationUs
abbrev pub default_max_buffer_duration_us : ℤ
default_max_buffer_duration_us = pos 30_000_000

pub record BufferedChunk : Type 0 where
  pub end_time_us : ℤ
  pub byte_count : ℤ
  pub duration_us : ℤ

-- The zero value that `make` fills the ring with.
abbrev pub zero_chunk : BufferedChunk
zero_chunk = record { end_time_us = pos 0; byte_count = pos 0; duration_us = pos 0 }

pub record BufferTracker : Type 0 where
  pub ring : List BufferedChunk
  pub head : ℕ
  pub count : ℕ
  pub buffered_bytes : ℤ
  pub buffered_duration_us : ℤ
  pub capacity_bytes : ℤ
  pub max_duration_us : ℤ

abbrev pub initial_cap : ℕ
initial_cap = 1500

-- `initialCap` is a parameter here; NewBufferTracker is `new initial_cap`.
unfoldable pub new : ℕ → ℤ → BufferTracker
new slots capacity_bytes = record {
  ring = replicate slots zero_chunk;
  head = 0;
  count = 0;
  buffered_bytes = pos 0;
  buffered_duration_us = pos 0;
  capacity_bytes = if leb_ℤ capacity_bytes (pos 0) then pos 1048576 else capacity_bytes;
  max_duration_us = default_max_buffer_duration_us;
}

unfoldable pub new_buffer_tracker : ℤ → BufferTracker
unfolding new
new_buffer_tracker capacity_bytes = new initial_cap capacity_bytes

-- The body of the loop of PruneConsumed, past its test.
pub evict : BufferTracker → BufferedChunk → BufferTracker
evict t entry = record t {
  head = (t.head + 1) % length t.ring;
  count = t.count - 1;
  buffered_bytes = sub64 t.buffered_bytes entry.byte_count;
  buffered_duration_us = sub64 t.buffered_duration_us entry.duration_us;
}

-- The loop of PruneConsumed; the first argument is `t.count`, which falls by one in each round.
pub prune_loop : ℕ → BufferTracker → ℤ → Option BufferTracker
prune_loop zero t now = some t
prune_loop (suc k) t now = elim (get_elem? t.ring t.head) [
  | none ↦ none
  | some entry ↦ elim (ltb_ℤ now entry.end_time_us) [
    | true ↦ some t
    | false ↦ prune_loop k (evict t entry) now
  ]
]

unfoldable pub prune_consumed : BufferTracker → ℤ → Option BufferTracker
unfolding prune_loop evict
prune_consumed t now = prune_loop t.count t now

unfoldable pub can_send : BufferTracker → ℤ → ℤ → Bool
can_send t byte_count duration_us =
    if ltb_ℤ t.capacity_bytes (add64 t.buffered_bytes byte_count)
    then false
    else if ltb_ℤ t.max_duration_us (add64 t.buffered_duration_us duration_us)
    then false
    else true

-- The loop of grow from index `i` on, with the rounds left and the entries written so far.
pub grow_loop : ℕ → ℕ → BufferTracker → List BufferedChunk → Option (List BufferedChunk)
grow_loop zero i t ring = some ring
grow_loop (suc k) i t ring = elim (get_elem? t.ring ((t.head + i) % length t.ring)) [
  | none ↦ none
  | some entry ↦ grow_loop k (i + 1) t (set ring i entry)
]

pub grow : BufferTracker → Option BufferTracker
unfolding grow_loop
grow t = elim (grow_loop t.count 0 t (replicate (length t.ring * 2) zero_chunk)) [
  | none ↦ none
  | some ring ↦ some (record t { ring = ring; head = 0 })
]

-- Register past the call of grow; a write out of range panics.
pub append_chunk : BufferTracker → BufferedChunk → Option BufferTracker
append_chunk t c =
    let idx = (t.head + t.count) % length t.ring in
    if ltb idx (length t.ring)
    then some (record t {
      ring = set t.ring idx c;
      count = t.count + 1;
      buffered_bytes = add64 t.buffered_bytes c.byte_count;
      buffered_duration_us = add64 t.buffered_duration_us c.duration_us;
    })
    else none

unfoldable pub register : BufferTracker → BufferedChunk → Option BufferTracker
unfolding grow append_chunk
register t c =
    let grown : Option BufferTracker = elim (grow t) [
      | none ↦ none
      | some t' ↦ append_chunk t' c
    ] in
    if t.count == length t.ring then grown else append_chunk t c

-- The part that one chunk plays in generateAndSendChunk: prune, ask, and record the chunk if the
-- send queue took it. The answer tells whether it was recorded.
unfoldable pub offer : BufferTracker → ℤ → BufferedChunk → Bool → Option (Bool × BufferTracker)
unfolding prune_consumed can_send register
offer t now c enqueued = elim (prune_consumed t now) [
  | none ↦ none
  | some t' ↦ elim (can_send t' c.byte_count c.duration_us) [
    | false ↦ some (false, t')
    | true ↦ elim enqueued [
      | false ↦ some (false, t')
      | true ↦ elim (register t' c) [ none ↦ none | some t'' ↦ some (true, t'') ]
    ]
  ]
]
