-- ===== src/BufferTracker/Contents.antt =====
-- The chunks that a tracker of pkg/sendspin/buffer_tracker.go holds, oldest first, and the
-- well-formedness of its ring.
use sendspin_go.Prelude.Ring
use sendspin_go.Prelude.{
  ℕ, ◌≤◌, ◌<◌, ◌≡◌, refl, List, [], ◌∷◌, ◌++◌, arith, length, length-replicate,
}
use sendspin_go.Prelude.Int.{ℤ, pos, ◌+ℤ◌, int_laws}
use sendspin_go.Prelude.Int64.{wrap64}
use sendspin_go.BufferTracker.{BufferedChunk, zero_chunk, BufferTracker, new}

-- The rings of the tracker, read with the zero value that `make` fills them with.
abbrev pub entry : List BufferedChunk → ℕ → ℕ → BufferedChunk
entry = Ring.entry zero_chunk

abbrev pub window : List BufferedChunk → ℕ → ℕ → ℕ → List BufferedChunk
window = Ring.window zero_chunk

abbrev pub contents : BufferTracker → List BufferedChunk
contents t = window t.ring t.head 0 t.count

abbrev pub total_bytes : List BufferedChunk → ℤ
total_bytes [] = pos 0
total_bytes (c ∷ q) = c.byte_count +ℤ total_bytes q

abbrev pub total_duration : List BufferedChunk → ℤ
total_duration [] = pos 0
total_duration (c ∷ q) = c.duration_us +ℤ total_duration q

-- The two counters are the machine sums over the held chunks.
pub record IsValid (t : BufferTracker) : Type 0 where
  pub slots : 0 < length t.ring
  pub head_in : t.head < length t.ring
  pub count_in : t.count ≤ length t.ring
  pub bytes : t.buffered_bytes ≡ wrap64 (total_bytes (contents t))
  pub duration : t.buffered_duration_us ≡ wrap64 (total_duration (contents t))

pub total_bytes-append :
    (q r : List BufferedChunk) → total_bytes (q ++ r) ≡ total_bytes q +ℤ total_bytes r
total_bytes-append [] r = omega int_laws
total_bytes-append (c ∷ q) r = rw (total_bytes-append q r) (omega int_laws)

pub total_duration-append :
    (q r : List BufferedChunk) → total_duration (q ++ r) ≡ total_duration q +ℤ total_duration r
total_duration-append [] r = omega int_laws
total_duration-append (c ∷ q) r = rw (total_duration-append q r) (omega int_laws)

-- A new tracker with room in its ring is well-formed and holds nothing.
pub new-IsValid : (slots : ℕ) (capacity : ℤ) → 0 < slots → IsValid (new slots capacity)
unfolding new wrap64
new-IsValid slots capacity h = record {
  slots = omega (arith, length-replicate slots zero_chunk);
  head_in = omega (arith, length-replicate slots zero_chunk);
  count_in = omega arith;
  bytes = refl;
  duration = refl;
}
