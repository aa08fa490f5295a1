-- ===== src/BufferTracker/Register.antt =====
-- Register and grow of pkg/sendspin/buffer_tracker.go: the new chunk goes to the end of the queue.
use mathlib.Core.Path.{subst}
use native.Mathlib.Nat.{mod-eq_of_lt}
use native.Mathlib.Decide.{dec_lt}
use sendspin_go.Prelude.{
  ℕ, zero, suc, ◌+◌, ◌*◌, ◌%◌, ◌≤◌, ◌<◌, ◌≡◌, refl, sym, ap, ◌∙◌, List, [], ◌∷◌, ◌++◌, inl, inr,
  some, arith, length, get_or, set, replicate, ◌==◌, Bool-cases, get_elem?-eq-get_or,
  get_or-set_self, get_or-set_ne, length-set, length-replicate, lt→ltb,
}
use sendspin_go.Prelude.Int.{int_laws}
use sendspin_go.Prelude.Int64.{add64, wrap64, add64-wrap64}
use sendspin_go.Prelude.Ring
use sendspin_go.BufferTracker.{
  BufferedChunk, zero_chunk, BufferTracker, grow_loop, grow, append_chunk, register,
}
use sendspin_go.BufferTracker.Contents.{
  IsValid, contents, entry, window, total_bytes, total_duration, total_bytes-append,
  total_duration-append,
}
use sendspin_go.BufferTracker.Prune.{Holds, Holds-trans}

-- What the loop of grow has written when it ends: the entries from place `i` on, in order.
record Copied (t : BufferTracker) (i k : ℕ) (old new : List BufferedChunk) : Type 0 where
  size : length new ≡ length old
  before : (j : ℕ) → j < i → get_or new j zero_chunk ≡ get_or old j zero_chunk
  copied : (j : ℕ) → i ≤ j → j < i + k → get_or new j zero_chunk ≡ entry t.ring t.head j

grow_loop-Copied :
    (k i : ℕ) (t : BufferTracker) (old : List BufferedChunk)
    → 0 < length t.ring
    → i + k ≤ length old
    → (new : List BufferedChunk) × (grow_loop k i t old ≡ some new) × Copied t i k old new
unfolding grow_loop
grow_loop-Copied zero i t old s h = (
  old,
  refl,
  record { size = refl; before = λ j p. refl; copied = λ j p q. absurd (omega arith) },
)
grow_loop-Copied (suc k) i t old s h =
    let fetch =
      get_elem?-eq-get_or t.ring ((t.head + i) % length t.ring) zero_chunk (omega arith) in
    let room : i + 1 + k ≤ length (set old i (entry t.ring t.head i)) =
      omega (arith, length-set old i (entry t.ring t.head i)) in
    let (new, runs, c) = grow_loop-Copied k (i + 1) t (set old i (entry t.ring t.head i)) s room in
    (
      new,
      rw (fetch, grow_loop) runs,
      record {
        size = c.size ∙ length-set old i (entry t.ring t.head i);
        before = λ j p. c.before j (omega arith) ∙ get_or-set_ne old _ zero_chunk (omega arith);
        copied = λ j p q. elim (dec_lt i j) [
          | yes lt ↦ c.copied j (omega arith) (omega arith)
          | no ge ↦
              let e : j ≡ i = omega arith in
              rw e (c.before i (omega arith) ∙ get_or-set_self old i _ zero_chunk (omega arith))
        ];
      },
    )

below : (new : List BufferedChunk) (m : ℕ) → m < length new → (0 + (0 + m)) % length new ≡ m
below new m p = ap (λ i. i % length new) (omega arith) ∙ mod-eq_of_lt p

-- grow keeps the queue and leaves room for one more chunk.
grow_refines :
    (t : BufferTracker)
    → IsValid t
    → (t' : BufferTracker) × (grow t ≡ some t')
      × Holds t (contents t) t'
      × (t'.count < length t'.ring)
unfolding grow
grow_refines t v =
    let fresh = replicate (length t.ring * 2) zero_chunk in
    let size = length-replicate (length t.ring * 2) zero_chunk in
    let (new, runs, c) = grow_loop-Copied t.count 0 t fresh v.slots (omega arith) in
    let same : window new 0 0 t.count ≡ contents t =
      Ring.window_ext zero_chunk new t.ring 0 t.head 0 0 t.count λ m p.
        ap (λ i. get_or new i zero_chunk) (below new m (omega (arith, c.size)))
        ∙ c.copied m (omega arith) (omega arith)
        ∙ ap (entry t.ring t.head) (omega arith) in
    (
      record t { ring = new; head = 0 },
      rw (runs, grow),
      record {
        valid = record {
          slots = omega (arith, c.size);
          head_in = omega (arith, c.size);
          count_in = omega (arith, c.size);
          bytes = v.bytes ∙ ap (λ q. wrap64 (total_bytes q)) (sym same);
          duration = v.duration ∙ ap (λ q. wrap64 (total_duration q)) (sym same);
        };
        holds = same;
        capacity = refl;
        limit = refl;
      },
      omega (arith, c.size),
    )

-- The ring after the write of `c` just past the queue.
module _ (t : BufferTracker) (c : BufferedChunk) (v : IsValid t)
    (room : t.count < length t.ring) where
  written : List BufferedChunk
  written = set t.ring ((t.head + t.count) % length t.ring) c

  length-written : length written ≡ length t.ring
  unfolding written
  length-written = length-set t.ring ((t.head + t.count) % length t.ring) c

  inside : (t.head + t.count) % length t.ring < length t.ring
  inside = omega (arith, v.slots)

  window-written : window written t.head 0 (t.count + 1) ≡ contents t ++ c ∷ []
  unfolding written
  window-written =
      ap (window written t.head 0) {y = suc t.count} (omega arith)
      ∙ Ring.window-set zero_chunk t.ring t.head t.count c v.head_in room

  bytes-written :
      add64 t.buffered_bytes c.byte_count
      ≡ wrap64 (total_bytes (window written t.head 0 (t.count + 1)))
  bytes-written =
      ap (λ b. add64 b c.byte_count) v.bytes
      ∙ add64-wrap64 (total_bytes (contents t)) c.byte_count
      ∙ ap wrap64 (rw (window-written, total_bytes-append (contents t) (c ∷ [])) (omega int_laws))

  duration-written :
      add64 t.buffered_duration_us c.duration_us
      ≡ wrap64 (total_duration (window written t.head 0 (t.count + 1)))
  duration-written =
      ap (λ b. add64 b c.duration_us) v.duration
      ∙ add64-wrap64 (total_duration (contents t)) c.duration_us
      ∙ ap wrap64
          (rw (window-written, total_duration-append (contents t) (c ∷ [])) (omega int_laws))

  append_chunk_refines :
      (t' : BufferTracker) × (append_chunk t c ≡ some t') × Holds t (contents t ++ c ∷ []) t'
  unfolding append_chunk written
  append_chunk_refines = (
    record t {
      ring = set t.ring ((t.head + t.count) % length t.ring) c;
      count = t.count + 1;
      buffered_bytes = add64 t.buffered_bytes c.byte_count;
      buffered_duration_us = add64 t.buffered_duration_us c.duration_us;
    },
    rw (lt→ltb _ _ inside),
    record {
      valid = record {
        slots = omega (arith, length-written);
        head_in = omega (arith, length-written);
        count_in = omega (arith, length-written);
        bytes = bytes-written;
        duration = duration-written;
      };
      holds = window-written;
      capacity = refl;
      limit = refl;
    },
  )

-- On a well-formed tracker Register does not panic, also when the ring is full: the chunk becomes
-- the last one held, the others stay in order, and the tracker is well-formed under the same limits.
pub register_refines :
    (t : BufferTracker) (c : BufferedChunk)
    → IsValid t
    → (t' : BufferTracker) × (register t c ≡ some t') × Holds t (contents t ++ c ∷ []) t'
unfolding register
register_refines t c v = elim (Bool-cases (t.count == length t.ring)) [
  | inl full ↦
      let (g, grows, h, room) = grow_refines t v in
      let (t', runs, k) = append_chunk_refines g c h.valid room in
      (
        t',
        rw (full, grows, register) runs,
        subst (λ q. Holds t (q ++ c ∷ []) t') h.holds (Holds-trans h k),
      )
  | inr free ↦
      let (t', runs, k) = append_chunk_refines t c v (ground arith) in
      (t', rw (free, register) runs, k)
]
