-- ===== src/Output/Malgo/Callback.antt =====
-- dataCallback of pkg/audio/output/malgo.go: the bytes that the device gets.
use mathlib.Core.Path.{ap₂}
use mathlib.Core.List.{append_assoc}
use sendspin_go.Prelude.{
  ℕ, ◌+◌, ◌*◌, ◌/◌, ◌%◌, ◌^◌, ◌≤◌, ◌≡◌, refl, sym, ap, ◌∙◌, List, [], ◌∷◌, ◌++◌, Option, some,
  if◌then◌else◌, arith, length, drop, length-append, take, replicate, length-take, length-replicate,
  ◌-◌, true, ltb, lt→ltb, set,
}
use sendspin_go.Prelude.Ring
use sendspin_go.Prelude.Int.{ℤ, pos, eqb_ℤ}
use sendspin_go.Audio.{sample_to_int16, encode_pcm}
use sendspin_go.Output.RingBuffer.{RingBuffer, Filled, read}
use sendspin_go.Output.RingBuffer.Fifo.{IsValid, contents, Taken, read-Taken}
use sendspin_go.Output.Malgo.{store, write_16bit, write_24bit, write_32bit, data_callback}

-- The little-endian bytes of the samples at each depth.
abbrev pub bytes16 : List ℕ → List ℕ
bytes16 [] = []
bytes16 (s ∷ ss) = sample_to_int16 s % 2 ^ 8 ∷ sample_to_int16 s / 2 ^ 8 % 2 ^ 8 ∷ bytes16 ss

abbrev pub bytes32 : List ℕ → List ℕ
bytes32 [] = []
bytes32 (s ∷ ss) =
    let v = s * 2 ^ 8 % 2 ^ 32 in
    v % 2 ^ 8 ∷ v / 2 ^ 8 % 2 ^ 8 ∷ v / 2 ^ 16 % 2 ^ 8 ∷ v / 2 ^ 24 % 2 ^ 8 ∷ bytes32 ss

-- Bytes stored one after the other.
abbrev pub stores : Option (List ℕ) → ℕ → List ℕ → Option (List ℕ)
stores o k [] = o
stores o k (b ∷ bs) = stores (store o k b) (k + 1) bs

set-length :
    (front : List ℕ) (a : ℕ) (back : List ℕ) (v : ℕ)
    → set (front ++ a ∷ back) (length front) v ≡ front ++ v ∷ back
set-length [] a back v = refl
set-length (x ∷ front) a back v = ap (◌∷◌ x) (set-length front a back v)

store-length :
    (front : List ℕ) (a : ℕ) (back : List ℕ) (v : ℕ)
    → store (some (front ++ a ∷ back)) (length front) v ≡ some (front ++ v ∷ back)
unfolding store
store-length front a back v =
    let inside : ltb (length front) (length (front ++ a ∷ back)) ≡ true =
      lt→ltb _ _ (omega (arith, length-append front (a ∷ back))) in
    rw inside (ap some (set-length front a back v))

stores-length :
    (bytes front back : List ℕ)
    → length bytes ≤ length back
    → stores (some (front ++ back)) (length front) bytes
      ≡ some (front ++ (bytes ++ drop (length bytes) back))
stores-length [] front back h = refl
stores-length (b ∷ bytes) front [] h = absurd (omega arith)
stores-length (b ∷ bytes) front (a ∷ back) h =
    let longer = front ++ b ∷ [] in
    ap (λ o. stores o (length front + 1) bytes)
      (store-length front a back b ∙ ap some (sym (append_assoc front (b ∷ []) back)))
    ∙ ap (λ k. stores (some (longer ++ back)) k bytes) {y = length longer}
        (omega (arith, length-append front (b ∷ [])))
    ∙ stores-length bytes longer back (omega arith)
    ∙ ap some (append_assoc front (b ∷ []) (bytes ++ drop (length bytes) back))

write_24bit-stores :
    (samples : List ℕ) (o : Option (List ℕ)) (i : ℕ)
    → write_24bit o i samples ≡ stores o (i * 3) (encode_pcm samples)
unfolding write_24bit encode_pcm
write_24bit-stores [] o i = refl
write_24bit-stores (s ∷ samples) o i =
    write_24bit-stores samples _ (i + 1)
    ∙ ap₂
        (λ a k.
          stores
            (store (store (store o (i * 3) (s % 2 ^ 8)) (i * 3 + 1) (s / 2 ^ 8 % 2 ^ 8)) a
              (s / 2 ^ 16 % 2 ^ 8))
            k (encode_pcm samples))
        {x = i * 3 + 2} {y = i * 3 + 1 + 1} {u = (i + 1) * 3} {v = i * 3 + 1 + 1 + 1} (omega arith)
        (omega arith)

write_16bit-stores :
    (samples : List ℕ) (o : Option (List ℕ)) (i : ℕ)
    → write_16bit o i samples ≡ stores o (i * 2) (bytes16 samples)
unfolding write_16bit
write_16bit-stores [] o i = refl
write_16bit-stores (s ∷ samples) o i =
    let v = sample_to_int16 s in
    write_16bit-stores samples _ (i + 1)
    ∙ ap
        (λ k.
          stores (store (store o (i * 2) (v % 2 ^ 8)) (i * 2 + 1) (v / 2 ^ 8 % 2 ^ 8)) k
            (bytes16 samples))
        {x = (i + 1) * 2} {y = i * 2 + 1 + 1} (omega arith)

write_32bit-stores :
    (samples : List ℕ) (o : Option (List ℕ)) (i : ℕ)
    → write_32bit o i samples ≡ stores o (i * 4) (bytes32 samples)
unfolding write_32bit
write_32bit-stores [] o i = refl
write_32bit-stores (s ∷ samples) o i =
    let v = s * 2 ^ 8 % 2 ^ 32 in
    let two = store (store o (i * 4) (v % 2 ^ 8)) (i * 4 + 1) (v / 2 ^ 8 % 2 ^ 8) in
    let rest = bytes32 samples in
    let third = v / 2 ^ 16 % 2 ^ 8 in
    let fourth = v / 2 ^ 24 % 2 ^ 8 in
    write_32bit-stores samples _ (i + 1)
    ∙ ap₂ (λ a k. stores (store (store two (i * 4 + 2) third) a fourth) k rest) {x = i * 4 + 3}
        {y = i * 4 + 2 + 1} {u = (i + 1) * 4} {v = i * 4 + 2 + 1 + 1} (omega arith) (omega arith)
    ∙ ap (λ a. stores (store (store two a third) (a + 1) fourth) (a + 1 + 1) rest) {x = i * 4 + 2}
        {y = i * 4 + 1 + 1} (omega arith)

length-bytes16 : (samples : List ℕ) → length (bytes16 samples) ≡ 2 * length samples
length-bytes16 [] = omega arith
length-bytes16 (s ∷ samples) = omega (arith, length-bytes16 samples)

length-encode_pcm : (samples : List ℕ) → length (encode_pcm samples) ≡ 3 * length samples
unfolding encode_pcm
length-encode_pcm [] = omega arith
length-encode_pcm (s ∷ samples) = omega (arith, length-encode_pcm samples)

length-bytes32 : (samples : List ℕ) → length (bytes32 samples) ≡ 4 * length samples
length-bytes32 [] = omega arith
length-bytes32 (s ∷ samples) = omega (arith, length-bytes32 samples)

-- The device's buffer after the callback: the bytes in front, the rest as it was.
abbrev pub overwritten : List ℕ → List ℕ → List ℕ
overwritten output bytes = bytes ++ drop (length bytes) output

stores-front :
    (bytes output : List ℕ)
    → length bytes ≤ length output
    → stores (some output) (0 * 2) bytes ≡ some (overwritten output bytes)
stores-front bytes output h = stores-length bytes [] output h

-- The bytes of one sample at a depth, and those of the samples.
abbrev pub width : ℤ → ℕ
width depth =
    if eqb_ℤ depth (pos 16)
    then 2
    else if eqb_ℤ depth (pos 24)
    then 3
    else if eqb_ℤ depth (pos 32)
    then 4
    else 0

abbrev pub encoded : ℤ → List ℕ → List ℕ
encoded depth samples =
    if eqb_ℤ depth (pos 16)
    then bytes16 samples
    else if eqb_ℤ depth (pos 24)
    then encode_pcm samples
    else if eqb_ℤ depth (pos 32)
    then bytes32 samples
    else []

length-encoded :
    (depth : ℤ) (samples : List ℕ) → length (encoded depth samples) ≡ width depth * length samples
length-encoded depth samples =
    ground (arith, length-bytes16 samples, length-encode_pcm samples, length-bytes32 samples)

data_callback-encoded :
    (ring : RingBuffer) (depth : ℤ) (total : ℕ) (output : List ℕ) (f : Filled)
    → read ring total ≡ some f
    → length (encoded depth f.samples) ≤ length output
    → data_callback ring depth total output
      ≡ some (f.ring, overwritten output (encoded depth f.samples))
unfolding data_callback
data_callback-encoded ring depth total output f reads room =
    let at_once : (bytes : List ℕ)
        → bytes ≡ encoded depth f.samples
        → stores (some output) 0 bytes ≡ some (overwritten output (encoded depth f.samples)) =
      λ bytes e.
        ap (stores (some output) 0) e ∙ stores-front (encoded depth f.samples) output room in
    ground (
      arith,
      reads,
      write_16bit-stores f.samples (some output) 0,
      write_24bit-stores f.samples (some output) 0,
      write_32bit-stores f.samples (some output) 0,
      at_once (bytes16 f.samples),
      at_once (encode_pcm f.samples),
      at_once (bytes32 f.samples),
    )

-- A callback for `total` samples on a well-formed ring never panics where the device's buffer has
-- the bytes of `total` samples at its depth: two for each at 16 bits, three at 24, four at 32, none
-- at any other depth. It reads the samples that RingBuffer.Read gives, the oldest ones and then
-- silence, and puts their little-endian bytes at the front of the buffer, at 24 bits the server's
-- PCM encoding, and leaves the rest of the buffer as it was.
pub data_callback-Taken :
    (ring : RingBuffer) (depth : ℤ) (total : ℕ) (output : List ℕ)
    → IsValid ring
    → width depth * total ≤ length output
    → (f : Filled) × Taken ring total f
      × (length f.samples ≡ total)
      × (data_callback ring depth total output
          ≡ some (f.ring, overwritten output (encoded depth f.samples)))
data_callback-Taken ring depth total output v room =
    let (f, reads, t) = read-Taken ring total v in
    let size : length f.samples ≡ total =
      ap length t.filled
      ∙ omega (
        arith,
        t.number,
        length-append (take f.read (contents ring)) (replicate (total - f.read) 0),
        length-take f.read (contents ring),
        length-replicate {A = ℕ} (total - f.read) 0,
        Ring.length-window 0 ring.buffer ring.read_pos 0 ring.count,
      ) in
    let exact : length (encoded depth f.samples) ≡ width depth * total =
      length-encoded depth f.samples ∙ ap (λ n. width depth * n) size in
    (f, t, size, data_callback-encoded ring depth total output f reads (omega (arith, exact)))
