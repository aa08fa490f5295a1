-- ===== src/Output/Malgo.antt =====
-- pkg/audio/output/malgo.go and volume.go: the writer's loop, the audio callback, the volume and
-- the life of the device. Samples are bit patterns, as in Audio. The scaling of one sample by the
-- volume is floating-point arithmetic (package math), a parameter here; so are the answers of the
-- miniaudio library and the clock. `none` is a run-time panic.
pub mod Writing
pub mod Callback
pub mod Lifetime
pub mod Volume
use sendspin_go.Prelude.{
  ℕ, zero, suc, ◌+◌, ◌-◌, ◌*◌, ◌/◌, ◌%◌, ◌^◌, Bool, true, false, not, ◌&&◌, ◌||◌, List, [], ◌∷◌,
  map, Option, none, some, ltb, ◌==◌, if◌then◌else◌, length, set, drop,
}
use sendspin_go.Prelude.Int.{ℤ, pos, negsuc, neg_part, ltb_ℤ, eqb_ℤ, quot_ℤ}
use sendspin_go.Prelude.Int64.{mul64}
use sendspin_go.Audio.{sample_to_int16}
use sendspin_go.Prelude.Text.{String}
use sendspin_go.Output.Device.{PlaybackDevice, Match, match_device}
use sendspin_go.Output.RingBuffer.{RingBuffer, Filled, new_ring_buffer, write, read}

-- audio.Max24Bit and audio.Min24Bit
abbrev pub max_24bit : ℤ
max_24bit = pos 8_388_607

abbrev pub min_24bit : ℤ
min_24bit = negsuc 8_388_607

-- int32(scaled), as a bit pattern, for a number that an int32 holds.
abbrev pub of_int32 : ℤ → ℕ
of_int32 (pos n) = n
of_int32 (negsuc n) = 2 ^ 32 - suc n

-- What applyVolume does to a scaled sample.
unfoldable pub clip_24bit : ℤ → ℤ
clip_24bit scaled =
    if ltb_ℤ max_24bit scaled
    then max_24bit
    else if ltb_ℤ scaled min_24bit
    then min_24bit
    else scaled

-- `scale` is `int64(float64(sample) * multiplier)`, and `curve volume` the multiplier that
-- math.Pow gives; `silence` is 0.0.
module _ {ℓ} {Float : Type ℓ} (scale : ℕ → Float → ℤ) (curve : ℤ → Float) (silence : Float) where
  unfoldable pub get_volume_multiplier : ℤ → Bool → Float
  get_volume_multiplier volume muted = if muted then silence else curve volume

  unfoldable pub apply_volume : List ℕ → ℤ → Bool → List ℕ
  unfolding get_volume_multiplier clip_24bit
  apply_volume samples volume muted =
      let multiplier = get_volume_multiplier volume muted in
      map (λ sample. of_int32 (clip_24bit (scale sample multiplier))) samples

-- One pass of the loop of Write: what the callback has read since the pass before, and the time that
-- has passed between the two looks at the clock, without the retry interval where the pass before
-- has slept (time.Sleep lasts at least its argument).
pub record Pass : Type 0 where
  pub drained : ℕ
  pub elapsed_ns : ℕ

abbrev pub max_stall_time_ns : ℕ
max_stall_time_ns = 50_000_000

abbrev pub retry_interval_ns : ℕ
retry_interval_ns = 1_000_000

-- `waiting` is a Write that has not returned when the listed passes end.
pub data Outcome : Type 0 where
  written : RingBuffer → Outcome
  stalled : RingBuffer → ℕ → Outcome
  waiting : RingBuffer → List ℕ → Outcome
  panics : Outcome

-- The end of a pass: how the loop goes on after ringBuffer.Write has taken `n` of the samples.
pub data Next : Type 0 where
  advances : List ℕ → Next
  waits : ℕ → Next
  gives_up : Next

unfoldable pub next : List ℕ → ℕ → ℕ → Next
next samples since n =
    if ltb 0 n
    then advances (drop n samples)
    else if ltb max_stall_time_ns since
    then gives_up
    else waits since

-- The loop of Write on the samples left, `since` the time since the last progress. A pass that waits
-- sleeps for the retry interval.
unfoldable pub write_passes : List Pass → List ℕ → ℕ → RingBuffer → Outcome
unfolding next
write_passes passes [] since ring = written ring
write_passes [] (x ∷ samples) since ring = waiting ring (x ∷ samples)
write_passes (p ∷ passes) (x ∷ samples) since ring = elim (read ring p.drained) [
  | none ↦ panics
  | some f ↦ elim (write f.ring (x ∷ samples)) [
    | none ↦ panics
    | some w ↦ elim (next (x ∷ samples) (since + p.elapsed_ns) w.1) [
      | advances rest ↦ write_passes passes rest 0 w.0
      | waits since' ↦ write_passes passes (x ∷ samples) (since' + retry_interval_ns) w.0
      | gives_up ↦ stalled w.0 (length (x ∷ samples))
    ]
  ]
]

-- `device` tells whether m.device is set, and `context_made` whether m.malgoCtx is.
pub record Malgo : Type 0 where
  pub context_made : Bool
  pub device : Bool
  pub device_name : String
  pub sample_rate : ℤ
  pub channels : ℤ
  pub bit_depth : ℤ
  pub volume : ℤ
  pub muted : Bool
  pub ready : Bool
  pub ring_buffer : RingBuffer

-- Malgo.Write, from its test of m.ready on; none is the error of an output that is not ready.
module _ {ℓ} {Float : Type ℓ} (scale : ℕ → Float → ℤ) (curve : ℤ → Float) (silence : Float) where
  unfoldable pub write_samples : Malgo → List Pass → List ℕ → Option Outcome
  unfolding apply_volume write_passes
  write_samples m passes samples =
      if not m.ready
      then none
      else some (
          write_passes passes (apply_volume scale curve silence samples m.volume m.muted) 0
            m.ring_buffer)

-- NewMalgo. The nil ring is one without slots: nothing reads it before Open has made another.
unfoldable pub new_malgo : String → Malgo
new_malgo device_name = record {
  context_made = false;
  device = false;
  device_name = device_name;
  sample_rate = pos 0;
  channels = pos 0;
  bit_depth = pos 0;
  volume = pos 100;
  muted = false;
  ready = false;
  ring_buffer = new_ring_buffer 0;
}

-- SetVolume
unfoldable pub set_volume : Malgo → ℤ → Malgo
set_volume m volume =
    let volume = if ltb_ℤ volume (pos 0) then pos 0 else volume in
    let volume = if ltb_ℤ (pos 100) volume then pos 100 else volume in record m { volume = volume }

unfoldable pub set_muted : Malgo → Bool → Malgo
set_muted m muted = record m { muted = muted }

-- closeDevice; a failure to stop the device is only logged.
unfoldable pub close_device : Malgo → Malgo
close_device m = if m.device then record m { device = false; ready = false } else m

-- Close; the context is freed, and no error of it is returned.
unfoldable pub close : Malgo → Malgo
unfolding close_device
close m = record (close_device m) { context_made = false }

pub data OpenError : Type 0 where
  context_failed : OpenError
  unsupported_bit_depth : OpenError
  enumeration_failed : OpenError
  no_device : Match → OpenError
  device_failed : OpenError
  start_failed : OpenError

-- The answers of the library to the calls that Open makes.
pub record Backend : Type 0 where
  pub makes_context : Bool
  pub lists : Option (List PlaybackDevice)
  pub makes_device : Bool
  pub starts : Bool

unfoldable pub supported_depth : ℤ → Bool
supported_depth bit_depth =
    eqb_ℤ bit_depth (pos 16) || eqb_ℤ bit_depth (pos 24) || eqb_ℤ bit_depth (pos 32)

-- 80 ms of samples; a negative capacity panics in `make`.
unfoldable pub buffer_samples : ℤ → ℤ → ℤ
buffer_samples sample_rate channels = quot_ℤ (mul64 (mul64 sample_rate channels) (pos 80)) 1000

-- The rest of Open once the device is known.
unfoldable pub start_device : Malgo → ℤ → ℤ → ℤ → Backend → Malgo × Option OpenError
start_device m sample_rate channels bit_depth b =
    if not b.makes_device
    then (m, some device_failed)
    else if not b.starts
    then (m, some start_failed)
    else (
      record m {
        device = true;
        sample_rate = sample_rate;
        channels = channels;
        bit_depth = bit_depth;
        ready = true;
      },
      none,
    )

unfoldable pub choose_device : Malgo → ℤ → ℤ → ℤ → Backend → Malgo × Option OpenError
unfolding start_device match_device
choose_device m sample_rate channels bit_depth b = elim b.lists [
  | none ↦ (m, some enumeration_failed)
  | some catalog ↦ elim (match_device catalog m.device_name) [
    | Match.found d ↦ start_device m sample_rate channels bit_depth b
    | Match.library_default ↦ start_device m sample_rate channels bit_depth b
    | Match.not_found ↦ (m, some (no_device Match.not_found))
    | Match.ambiguous n ↦ (m, some (no_device (Match.ambiguous n)))
  ]
]

-- Open once the old device is closed.
unfoldable pub reopen : Malgo → ℤ → ℤ → ℤ → Backend → Option (Malgo × Option OpenError)
unfolding supported_depth buffer_samples choose_device
reopen m sample_rate channels bit_depth b =
    if not m.context_made && not b.makes_context
    then some (m, some context_failed)
    else let m = record m { context_made = true } in
      if not (supported_depth bit_depth)
      then some (m, some unsupported_bit_depth)
      else elim (buffer_samples sample_rate channels) [
        | negsuc n ↦ none
        | pos n ↦ some (
            choose_device (record m { ring_buffer = new_ring_buffer n }) sample_rate channels
              bit_depth b)
      ]

-- Open, with the state it leaves and its error.
unfoldable pub open_device : Malgo → ℤ → ℤ → ℤ → Backend → Option (Malgo × Option OpenError)
unfolding reopen close_device
open_device m sample_rate channels bit_depth b =
    if m.device
      && (eqb_ℤ m.sample_rate sample_rate
          && (eqb_ℤ m.channels channels && eqb_ℤ m.bit_depth bit_depth))
    then some (m, none)
    else reopen (close_device m) sample_rate channels bit_depth b

-- `output[i] = byte`
unfoldable pub store : Option (List ℕ) → ℕ → ℕ → Option (List ℕ)
store none i byte = none
store (some output) i byte = if ltb i (length output) then some (set output i byte) else none

-- The loops of write16Bit, write24Bit and write32Bit from sample `i` on.
unfoldable pub write_16bit : Option (List ℕ) → ℕ → List ℕ → Option (List ℕ)
unfolding store sample_to_int16
write_16bit output i [] = output
write_16bit output i (sample ∷ samples) =
    let sample16 = sample_to_int16 sample in
    write_16bit
      (store (store output (i * 2) (sample16 % 2 ^ 8)) (i * 2 + 1) (sample16 / 2 ^ 8 % 2 ^ 8))
      (i + 1) samples

unfoldable pub write_24bit : Option (List ℕ) → ℕ → List ℕ → Option (List ℕ)
unfolding store
write_24bit output i [] = output
write_24bit output i (sample ∷ samples) =
    write_24bit
      (store (store (store output (i * 3) (sample % 2 ^ 8)) (i * 3 + 1) (sample / 2 ^ 8 % 2 ^ 8))
        (i * 3 + 2) (sample / 2 ^ 16 % 2 ^ 8))
      (i + 1) samples

unfoldable pub write_32bit : Option (List ℕ) → ℕ → List ℕ → Option (List ℕ)
unfolding store
write_32bit output i [] = output
write_32bit output i (sample ∷ samples) =
    let sample32 = sample * 2 ^ 8 % 2 ^ 32 in
    write_32bit
      (store
        (store
          (store (store output (i * 4) (sample32 % 2 ^ 8)) (i * 4 + 1) (sample32 / 2 ^ 8 % 2 ^ 8))
          (i * 4 + 2) (sample32 / 2 ^ 16 % 2 ^ 8))
        (i * 4 + 3) (sample32 / 2 ^ 24 % 2 ^ 8))
      (i + 1) samples

-- dataCallback, with the ring it leaves and the device's buffer. `total` is int(frameCount) *
-- m.channels.
unfoldable pub data_callback : RingBuffer → ℤ → ℕ → List ℕ → Option (RingBuffer × List ℕ)
unfolding write_16bit write_24bit write_32bit
data_callback ring bit_depth total output = elim (read ring total) [
  | none ↦ none
  | some f ↦
      elim (if eqb_ℤ bit_depth (pos 16)
        then write_16bit (some output) 0 f.samples
        else if eqb_ℤ bit_depth (pos 24)
        then write_24bit (some output) 0 f.samples
        else if eqb_ℤ bit_depth (pos 32)
        then write_32bit (some output) 0 f.samples
        else some output) [ none ↦ none | some filled ↦ some (f.ring, filled) ]
]
