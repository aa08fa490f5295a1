-- ===== src/Output/RingBuffer.antt =====
-- RingBuffer of pkg/audio/output/malgo.go: the samples between Write and the audio callback. A
-- sample is the bit pattern of an int32; indices and counts are plain numbers, since the buffer is
-- held in memory. `none` is a run-time panic (an index out of range).
pub mod Fifo
pub mod Runs
use sendspin_go.Prelude.{
  ℕ, zero, suc, ◌+◌, ◌-◌, ◌%◌, Bool, true, false, List, [], ◌∷◌, Option, none, some, ltb, length,
  get_elem?, set, replicate,
}

pub record RingBuffer : Type 0 where
  pub buffer : List ℕ
  pub read_pos : ℕ
  pub write_pos : ℕ
  pub size : ℕ
  pub count : ℕ

unfoldable pub new_ring_buffer : ℕ → RingBuffer
new_ring_buffer capacity = record {
  buffer = replicate capacity 0;
  read_pos = 0;
  write_pos = 0;
  size = capacity;
  count = 0;
}

-- The body of the loop of Write, its write within bounds.
unfoldable pub put : RingBuffer → ℕ → RingBuffer
put rb sample = record rb {
  buffer = set rb.buffer rb.write_pos sample;
  write_pos = (rb.write_pos + 1) % rb.size;
  count = rb.count + 1;
}

-- The loop of Write over the samples left, with the number written so far.
unfoldable pub write_loop : List ℕ → RingBuffer → ℕ → Option (RingBuffer × ℕ)
unfolding put
write_loop [] rb written = some (rb, written)
write_loop (sample ∷ samples) rb written = elim (ltb rb.count rb.size) [
  | false ↦ some (rb, written)
  | true ↦ elim (ltb rb.write_pos (length rb.buffer)) [
    | false ↦ none
    | true ↦ write_loop samples (put rb sample) (written + 1)
  ]
]

-- RingBuffer.Write: the number of samples that found room.
unfoldable pub write : RingBuffer → List ℕ → Option (RingBuffer × ℕ)
unfolding write_loop
write rb samples = write_loop samples rb 0

-- The body of the loop of Read, past its read.
unfoldable pub advance : RingBuffer → RingBuffer
advance rb = record rb { read_pos = (rb.read_pos + 1) % rb.size; count = rb.count - 1 }

-- What Read leaves: the ring, the slice it has filled and the number of samples in it.
pub record Filled : Type 0 where
  pub ring : RingBuffer
  pub samples : List ℕ
  pub read : ℕ

-- The two loops of Read on a slice of the given length: samples while there are any, then zeros.
unfoldable pub read_loop : ℕ → RingBuffer → Option Filled
unfolding advance
read_loop zero rb = some (record { ring = rb; samples = []; read = 0 })
read_loop (suc n) rb = elim (ltb 0 rb.count) [
  | false ↦ some (record { ring = rb; samples = replicate (suc n) 0; read = 0 })
  | true ↦ elim (get_elem? rb.buffer rb.read_pos) [
    | none ↦ none
    | some sample ↦ elim (read_loop n (advance rb)) [
      | none ↦ none
      | some f ↦ some (record { ring = f.ring; samples = sample ∷ f.samples; read = suc f.read })
    ]
  ]
]

-- RingBuffer.Read into a slice of `n` samples.
unfoldable pub read : RingBuffer → ℕ → Option Filled
unfolding read_loop
read rb n = read_loop n rb

unfoldable pub available : RingBuffer → ℕ
available rb = rb.count

unfoldable pub free : RingBuffer → ℕ
free rb = rb.size - rb.count
