-- ===== src/Output/RingBuffer/Runs.antt =====
-- RingBuffer of pkg/audio/output/malgo.go under any sequence of writes and reads.
use mathlib.Core.Path.{ap₂}
use mathlib.Core.List.{append_assoc}
use sendspin_go.Prelude.{
  ℕ, zero, suc, ◌-◌, ◌≤◌, ◌<◌, ◌≡◌, refl, sym, ap, ◌∙◌, List, [], ◌∷◌, ◌++◌, Option, none, some,
  arith, length, replicate, take, drop, take-append-drop,
}
use sendspin_go.Prelude.Ring
use sendspin_go.Output.RingBuffer.{RingBuffer, new_ring_buffer, write, Filled, read}
use sendspin_go.Output.RingBuffer.Fifo.{
  contents, IsValid, new_ring_buffer-IsValid, write-Written, read-Taken,
}

-- A caller's use of the ring: the audio source writes, the audio callback reads.
pub data Op : Type 0 where
  writes : List ℕ → Op
  reads : ℕ → Op

-- The ring after some operations, the samples that found room and the samples handed out.
pub record Run : Type 0 where
  pub ring : RingBuffer
  pub accepted : List ℕ
  pub delivered : List ℕ

abbrev after_write : Run → List ℕ → Option (RingBuffer × ℕ) → Option Run
after_write s samples none = none
after_write s samples (some (ring, n)) =
    some (record { ring = ring; accepted = s.accepted ++ take n samples; delivered = s.delivered })

abbrev after_read : Run → Option Filled → Option Run
after_read s none = none
after_read s (some f) = some (record {
  ring = f.ring;
  accepted = s.accepted;
  delivered = s.delivered ++ take f.read f.samples;
})

unfoldable pub step : Run → Op → Option Run
step s (writes samples) = after_write s samples (write s.ring samples)
step s (reads n) = after_read s (read s.ring n)

unfoldable pub run : List Op → Run → Option Run
unfolding step
run [] s = some s
run (o ∷ os) s = elim (step s o) [ none ↦ none | some s' ↦ run os s' ]

pub record InOrder (s : Run) : Type 0 where
  pub valid : IsValid s.ring
  pub order : s.delivered ++ contents s.ring ≡ s.accepted

take-take_append :
    (k n : ℕ) (q : List ℕ) (r : List ℕ) → k ≤ length q → take k (take k q ++ r) ≡ take k q
take-take_append zero n q r h = refl
take-take_append (suc k) n [] r h = absurd (omega arith)
take-take_append (suc k) n (x ∷ q) r h = ap (◌∷◌ x) (take-take_append k n q r (omega arith))

step-InOrder : (s : Run) (o : Op) → InOrder s → (s' : Run) × (step s o ≡ some s') × InOrder s'
unfolding step
step-InOrder s (writes samples) i =
    let (ring, n, runs, w) = write-Written s.ring samples i.valid in
    (
      record { ring = ring; accepted = s.accepted ++ take n samples; delivered = s.delivered },
      ap (after_write s samples) runs,
      record {
        valid = w.valid;
        order =
            ap (◌++◌ s.delivered) w.queue
            ∙ sym (append_assoc s.delivered (contents s.ring) (take n samples))
            ∙ ap (λ q. q ++ take n samples) i.order;
      },
    )
step-InOrder s (reads n) i =
    let (f, runs, t) = read-Taken s.ring n i.valid in
    let oldest = take f.read (contents s.ring) in
    let handed : take f.read f.samples ≡ oldest =
      ap (take f.read) t.filled
      ∙ take-take_append f.read n (contents s.ring) (replicate (n - f.read) 0) (
          omega
            (arith, t.number, Ring.length-window 0 s.ring.buffer s.ring.read_pos 0 s.ring.count)) in
    (
      record {
        ring = f.ring;
        accepted = s.accepted;
        delivered = s.delivered ++ take f.read f.samples;
      },
      ap (after_read s) runs,
      record {
        valid = t.valid;
        order =
            ap₂ (λ a b. (s.delivered ++ a) ++ b) handed t.queue
            ∙ append_assoc s.delivered oldest (drop f.read (contents s.ring))
            ∙ ap (◌++◌ s.delivered) (take-append-drop f.read (contents s.ring))
            ∙ i.order;
      },
    )

run-cons : (o : Op) (os : List Op) (s s' : Run) → step s o ≡ some s' → run (o ∷ os) s ≡ run os s'
unfolding run
run-cons o os s s' e = rw (e, run) refl

run-InOrder_from :
    (os : List Op) (s : Run) → InOrder s → (s' : Run) × (run os s ≡ some s') × InOrder s'
unfolding run
run-InOrder_from [] s i = (s, refl, i)
run-InOrder_from (o ∷ os) s i =
    let (s', goes, i') = step-InOrder s o i in
    let (s'', rest, i'') = run-InOrder_from os s' i' in (s'', run-cons o os s s' goes ∙ rest, i'')

contents-new : (c : ℕ) → contents (new_ring_buffer c) ≡ []
unfolding new_ring_buffer
contents-new c = refl

-- From a new ring of at least one slot, whatever is written to it and read from it in whatever
-- order, no operation panics, the ring stays well-formed, and the samples that Read has handed out,
-- followed by those still held, are exactly the samples that found room, in the order in which
-- they were written: none is lost, repeated or reordered.
pub run-InOrder :
    (capacity : ℕ) (os : List Op)
    → 0 < capacity
    → (s : Run) × (run os
          (record { ring = new_ring_buffer capacity; accepted = []; delivered = [] })
        ≡ some s)
      × InOrder s
run-InOrder capacity os h =
    run-InOrder_from os _
      (record { valid = new_ring_buffer-IsValid capacity h; order = contents-new capacity })
