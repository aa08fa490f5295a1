-- ===== src/BufferTracker/Tests.antt =====
-- Runs of the tracker of pkg/sendspin/buffer_tracker.go on small rings, and its theorems at them.
use sendspin_go.Prelude.{ℕ, ◌≡◌, refl, true, false, List, [], ◌∷◌, none, some, arith}
use sendspin_go.Prelude.Int.{pos, ◌+ℤ◌}
use sendspin_go.Prelude.Int64.{wrap64}
use sendspin_go.BufferTracker.{BufferedChunk, BufferTracker, new, register}
use sendspin_go.BufferTracker.Contents.{IsValid, contents}
use sendspin_go.BufferTracker.Budget.{room_for, WithinBudget, Fits}
use sendspin_go.BufferTracker.Offers.{Attempt, run, run_queue, run_refines}

abbrev chunk : ℕ → BufferedChunk
chunk n = record { end_time_us = pos n; byte_count = pos 40; duration_us = pos 20_000 }

-- A full ring of two slots whose head is in the middle.
abbrev wrapped : BufferTracker
wrapped = record {
  ring = chunk 30 ∷ chunk 20 ∷ [];
  head = 1;
  count = 2;
  buffered_bytes = pos 80;
  buffered_duration_us = pos 40_000;
  capacity_bytes = pos 100;
  max_duration_us = pos 30_000_000;
}

wrapped-IsValid : IsValid wrapped
unfolding wrap64 ◌+ℤ◌
wrapped-IsValid = record {
  slots = omega arith;
  head_in = omega arith;
  count_in = omega arith;
  bytes = refl;
  duration = refl;
}

wrapped-WithinBudget : WithinBudget wrapped
unfolding ◌+ℤ◌
wrapped-WithinBudget = record {
  valid = wrapped-IsValid;
  natural = omega arith;
  bytes = omega arith;
  duration = omega arith;
  capacity_fits = omega arith;
  limit_fits = omega arith;
}

chunk-Fits : Fits wrapped (chunk 50)
unfolding ◌+ℤ◌
chunk-Fits = omega arith

contents-wrapped : contents wrapped ≡ chunk 20 ∷ chunk 30 ∷ []
contents-wrapped = refl

grows : register (new 0 (pos 5)) (chunk 1) ≡ none
unfolding register new
grows = refl

abbrev attempts : List Attempt
attempts =
    record { now = pos 0; chunk = chunk 50; enqueued = true }
    ∷ record { now = pos 20; chunk = chunk 50; enqueued = false }
    ∷ record { now = pos 20; chunk = chunk 50; enqueued = true }
    ∷ []

run-wrapped :
    run_queue (pos 100) (pos 30_000_000) (contents wrapped) attempts ≡ false ∷ false ∷ true ∷ []
unfolding room_for ◌+ℤ◌
run-wrapped = refl

run_refines_example :
    (t' : BufferTracker) × (run wrapped attempts
      ≡ some (run_queue (pos 100) (pos 30_000_000) (contents wrapped) attempts, t'))
    × WithinBudget t'
run_refines_example =
    run_refines attempts wrapped wrapped-WithinBudget (chunk-Fits, (chunk-Fits, (chunk-Fits, tt)))
