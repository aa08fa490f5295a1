-- ===== src/Output/Tests.antt =====
-- The output of pkg/audio/output on concrete samples and devices.
use sendspin_go.Prelude.{
  ℕ, ◌≡◌, refl, true, false, List, [], ◌∷◌, Option, some, arith, length, replicate,
}
use sendspin_go.Prelude.Int.{pos, ◌*ℤ◌, quot_ℤ}
use sendspin_go.Prelude.Int64.{mul64, wrap64, to_u64, of_u64}
use sendspin_go.Output.RingBuffer.{RingBuffer, new_ring_buffer, Filled}
use sendspin_go.Output.RingBuffer.Fifo.{IsValid, new_ring_buffer-IsValid, Taken}
use sendspin_go.Output.RingBuffer.Runs.{Op, writes, reads, Run, run, InOrder, run-InOrder}
use sendspin_go.Output.Device.{
  PlaybackDevice, Match, match_device, first_default, first_named, short_matches, short_match,
}
use sendspin_go.Output.Device.Choice.{promised, match_device_lem}
use sendspin_go.Output.Malgo.{
  Pass, write_passes, Malgo, new_malgo, Backend, OpenError, buffer_samples, open_device,
  data_callback,
}
use sendspin_go.Output.Malgo.Writing.{
  Accounts, Returned, write_passes-Accounts, write_passes-Returned,
}
use sendspin_go.Output.Malgo.Callback.{encoded, overwritten, data_callback-Taken}
use sendspin_go.Output.Malgo.Lifetime.{
  IsConsistent, Opened, new_malgo-IsConsistent, open_device-Opened,
}

-- The third sample finds no room; one is read, and the fourth goes round the end.
abbrev ops : List Op
ops = writes (1 ∷ 2 ∷ 3 ∷ []) ∷ reads 1 ∷ writes (4 ∷ []) ∷ reads 3 ∷ []

abbrev at_start : Run
at_start = record { ring = new_ring_buffer 2; accepted = []; delivered = [] }

run-InOrder_example : (s : Run) × (run ops at_start ≡ some s) × InOrder s
run-InOrder_example = run-InOrder 2 ops (omega arith)

abbrev passes : List Pass
passes =
    record { drained = 0; elapsed_ns = 0 } ∷ record { drained = 0; elapsed_ns = 60_000_000 } ∷ []

write_passes-Accounts_example :
    Accounts
      (new_ring_buffer 2)
      (1 ∷ 2 ∷ 3 ∷ [])
      (write_passes passes (1 ∷ 2 ∷ 3 ∷ []) 0 (new_ring_buffer 2))
write_passes-Accounts_example =
    write_passes-Accounts passes (1 ∷ 2 ∷ 3 ∷ []) 0 (new_ring_buffer 2)
      (new_ring_buffer-IsValid 2 (omega arith))

-- Nobody reads; the third sample is given up after 50 ms.
abbrev waits : List Pass
waits = replicate 156 (record { drained = 0; elapsed_ns = 0 })

write_passes-Returned_example : Returned (write_passes waits (7 ∷ 8 ∷ 9 ∷ []) 0 (new_ring_buffer 2))
write_passes-Returned_example =
    write_passes-Returned waits (7 ∷ 8 ∷ 9 ∷ []) (new_ring_buffer 2)
      (new_ring_buffer-IsValid 2 (omega arith)) (omega arith)

-- One sample is queued, and two are asked for in a buffer of just their size at 24 bits.
abbrev queued : RingBuffer
queued = record (new_ring_buffer 2) { buffer = 70_000 ∷ 0 ∷ []; write_pos = 1; count = 1 }

queued-IsValid : IsValid queued
unfolding new_ring_buffer
queued-IsValid = record {
  slots = omega arith;
  sized = refl;
  read_in = omega arith;
  count_in = omega arith;
  write_at = refl;
}

abbrev frame : List ℕ
frame = replicate 6 9

data_callback-Taken_example :
    (f : Filled) × Taken queued 2 f
    × (length f.samples ≡ 2)
    × (data_callback queued (pos 24) 2 frame
        ≡ some (f.ring, overwritten frame (encoded (pos 24) f.samples)))
data_callback-Taken_example =
    data_callback-Taken queued (pos 24) 2 frame queued-IsValid (omega arith)

abbrev headphones : PlaybackDevice
headphones = record { name = "bcm2835 Headphones, Default"; is_default = true; id = 0 }

abbrev usb : PlaybackDevice
usb = record { name = "USB DAC, Front"; is_default = false; id = 1 }

abbrev devices : List PlaybackDevice
devices = usb ∷ headphones ∷ []

by_default : match_device devices "" ≡ Match.found headphones
unfolding match_device first_default
by_default = refl

by_short_name : match_device devices "USB DAC" ≡ Match.found usb
unfolding match_device first_named short_matches short_match
by_short_name = refl

match_device_lem_example : match_device devices "USB DAC" ≡ promised devices "USB DAC"
match_device_lem_example = match_device_lem devices "USB DAC"

abbrev working : Backend
working = record { makes_context = true; lists = some devices; makes_device = true; starts = true }

cd_size : buffer_samples (pos 48000) (pos 2) ≡ pos 7680
unfolding buffer_samples mul64 wrap64 to_u64 of_u64 ◌*ℤ◌ quot_ℤ
cd_size = refl

open_device-Opened_example :
    (m : Malgo) × (e : Option OpenError) × (open_device
        (new_malgo "")
        (pos 48000)
        (pos 2)
        (pos 24)
        working
      ≡ some (m, e))
    × Opened (pos 48000) (pos 2) (pos 24) m e
    × IsConsistent m
open_device-Opened_example =
    open_device-Opened (new_malgo "") (pos 48000) (pos 2) (pos 24) working 7680 cd_size
      (new_malgo-IsConsistent "")
