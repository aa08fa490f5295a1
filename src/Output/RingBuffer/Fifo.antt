-- ===== src/Output/RingBuffer/Fifo.antt =====
-- RingBuffer is a bounded first-in first-out queue.
use sendspin_go.Prelude.{
  ℕ, zero, suc, ◌+◌, ◌-◌, ◌%◌, ◌≤◌, ◌<◌, min, ◌≡◌, refl, sym, ap, ◌∙◌, List, [], ◌∷◌, ◌++◌, some,
  inl, inr, ◌⊎◌, get_elem?, arith, length, set, get_or, replicate, take, drop, length-set,
  length-replicate, get_elem?-eq-get_or,
}
use sendspin_go.Prelude.Ring
use mathlib.Core.Path.{ap₂}
use mathlib.Core.List.{append-nil, append_assoc}
use native.Mathlib.Decide.{dec_lt}
use native.Mathlib.Nat.{mod-add-mod, mod-eq_of_lt}
use sendspin_go.Output.RingBuffer.{
  RingBuffer, new_ring_buffer, put, write_loop, write, advance, Filled, read_loop, read, free,
}

-- The samples held, oldest first.
abbrev pub contents : RingBuffer → List ℕ
contents rb = Ring.window 0 rb.buffer rb.read_pos 0 rb.count

pub record IsValid (rb : RingBuffer) : Type 0 where
  pub slots : 0 < rb.size
  pub sized : length rb.buffer ≡ rb.size
  pub read_in : rb.read_pos < rb.size
  pub count_in : rb.count ≤ rb.size
  pub write_at : rb.write_pos ≡ (rb.read_pos + rb.count) % rb.size

pub new_ring_buffer-IsValid : (capacity : ℕ) → 0 < capacity → IsValid (new_ring_buffer capacity)
unfolding new_ring_buffer
new_ring_buffer-IsValid capacity h = record {
  slots = h;
  sized = length-replicate capacity 0;
  read_in = h;
  count_in = omega arith;
  write_at = sym (mod-eq_of_lt h);
}

module _ (rb : RingBuffer) (v : IsValid rb) where
  write_in : rb.write_pos < length rb.buffer
  write_in = omega (arith, v.slots, v.sized, v.write_at)

  put-IsValid : rb.count < rb.size → (x : ℕ) → IsValid (put rb x)
  unfolding put
  put-IsValid room x = record {
    slots = v.slots;
    sized = length-set rb.buffer rb.write_pos x ∙ v.sized;
    read_in = v.read_in;
    count_in = omega arith;
    write_at =
        ap (λ i. (i + 1) % rb.size) v.write_at
        ∙ rw mod-add-mod (ap (λ i. i % rb.size) (omega arith));
  }

  contents-put : rb.count < rb.size → (x : ℕ) → contents (put rb x) ≡ contents rb ++ x ∷ []
  unfolding put
  contents-put room x =
      let at : rb.write_pos ≡ (rb.read_pos + rb.count) % length rb.buffer = rw v.sized v.write_at in
      ap (λ i. Ring.window 0 (set rb.buffer i x) rb.read_pos 0 (rb.count + 1)) at
      ∙ ap
          (Ring.window 0 (set rb.buffer ((rb.read_pos + rb.count) % length rb.buffer) x) rb.read_pos
            0)
          {y = suc rb.count} (omega arith)
      ∙ Ring.window-set 0 rb.buffer rb.read_pos rb.count x (omega (arith, v.read_in, v.sized))
          (omega (arith, v.sized))

  module _ (k : ℕ) (n : rb.count ≡ suc k) where
    contents-eq-cons : contents rb ≡ get_or rb.buffer rb.read_pos 0 ∷ contents (advance rb)
    unfolding advance
    contents-eq-cons =
        let first : (rb.read_pos + 0) % length rb.buffer ≡ rb.read_pos =
          ap (λ i. i % length rb.buffer) (omega arith)
          ∙ mod-eq_of_lt (omega (arith, v.read_in, v.sized)) in
        ap (Ring.window 0 rb.buffer rb.read_pos 0) n
        ∙ ap₂ ◌∷◌ (ap (λ i. get_or rb.buffer i 0) first) (
            Ring.window-head 0 rb.buffer rb.read_pos k
            ∙ ap (λ m. Ring.window 0 rb.buffer ((rb.read_pos + 1) % m) 0 k) v.sized
            ∙ ap (Ring.window 0 rb.buffer ((rb.read_pos + 1) % rb.size) 0) (omega arith))

    advance-IsValid : IsValid (advance rb)
    unfolding advance
    advance-IsValid = record {
      slots = v.slots;
      sized = v.sized;
      read_in = omega (arith, v.slots);
      count_in = omega (arith, v.count_in);
      write_at = v.write_at ∙ rw mod-add-mod (ap (λ i. i % rb.size) (omega arith));
    }

-- What a Write of `samples` leaves: those that find room are appended, in order.
pub record Written (rb : RingBuffer) (samples : List ℕ) (rb' : RingBuffer) (n : ℕ) : Type 0 where
  pub valid : IsValid rb'
  pub same_size : rb'.size ≡ rb.size
  pub number : n ≡ min (length samples) (free rb)
  pub queue : contents rb' ≡ contents rb ++ take n samples
  pub held : rb'.count ≡ rb.count + n

-- What a Read of `n` samples leaves: the oldest ones, then silence.
pub record Taken (rb : RingBuffer) (n : ℕ) (f : Filled) : Type 0 where
  pub valid : IsValid f.ring
  pub same_size : f.ring.size ≡ rb.size
  pub number : f.read ≡ min n rb.count
  pub filled : f.samples ≡ take f.read (contents rb) ++ replicate (n - f.read) 0
  pub queue : contents f.ring ≡ drop f.read (contents rb)

module _ (x : ℕ) (samples : List ℕ) (rb : RingBuffer) (w : ℕ) where
  write_loop-room :
      rb.count < rb.size
      → rb.write_pos < length rb.buffer
      → write_loop (x ∷ samples) rb w ≡ write_loop samples (put rb x) (w + 1)
  unfolding write_loop
  write_loop-room room inside = ground arith

  write_loop-full : rb.size ≤ rb.count → write_loop (x ∷ samples) rb w ≡ some (rb, w)
  unfolding write_loop
  write_loop-full full = ground arith

write_loop-nil : (rb : RingBuffer) (w : ℕ) → write_loop [] rb w ≡ some (rb, w)
unfolding write_loop
write_loop-nil rb w = refl

write_loop-Written :
    (samples : List ℕ) (rb : RingBuffer) (w : ℕ)
    → IsValid rb
    → (rb' : RingBuffer) × (n : ℕ) × (write_loop samples rb w ≡ some (rb', w + n))
      × Written rb samples rb' n
unfolding free put
write_loop-Written [] rb w v = (
  rb,
  0,
  write_loop-nil rb w ∙ ap (λ i. some (rb, i)) (omega arith),
  record {
    valid = v;
    same_size = refl;
    number = omega arith;
    queue = sym (append-nil (contents rb));
    held = omega arith;
  },
)
write_loop-Written (x ∷ samples) rb w v = elim (dec_lt rb.count rb.size) [
  | no full ↦ (
    rb,
    0,
    write_loop-full x samples rb w (omega arith) ∙ ap (λ i. some (rb, i)) (omega arith),
    record {
      valid = v;
      same_size = refl;
      number = omega arith;
      queue = sym (append-nil (contents rb));
      held = omega arith;
    },
  )
  | yes room ↦
      let (rb', n, runs, t) =
        write_loop-Written samples (put rb x) (w + 1) (put-IsValid rb v room x) in
      (
        rb',
        suc n,
        write_loop-room x samples rb w room (write_in rb v)
            ∙ runs
            ∙ ap (λ i. some (rb', i)) (omega arith),
        record {
          valid = t.valid;
          same_size = t.same_size;
          number = omega (arith, t.number);
          queue =
              t.queue
              ∙ ap (λ q. q ++ take n samples) (contents-put rb v room x)
              ∙ append_assoc (contents rb) (x ∷ []) (take n samples);
          held = omega (arith, t.held);
        },
      )
]

Nat-cases : (n : ℕ) → (n ≡ 0) ⊎ ((k : ℕ) × (n ≡ suc k))
Nat-cases zero = inl refl
Nat-cases (suc k) = inr (k, refl)

read_loop-empty :
    (n : ℕ) (rb : RingBuffer)
    → rb.count ≡ 0
    → read_loop (suc n) rb ≡ some (record { ring = rb; samples = replicate (suc n) 0; read = 0 })
unfolding read_loop
read_loop-empty n rb h = ground arith

read_loop-some :
    (n : ℕ) (rb : RingBuffer) (x : ℕ) (f : Filled)
    → 0 < rb.count
    → get_elem? rb.buffer rb.read_pos ≡ some x
    → read_loop n (advance rb) ≡ some f
    → read_loop (suc n) rb
      ≡ some (record { ring = f.ring; samples = x ∷ f.samples; read = suc f.read })
unfolding read_loop
read_loop-some n rb x f h fetch runs = ground (arith, fetch, runs)

read_loop-Taken :
    (n : ℕ) (rb : RingBuffer) → IsValid rb → (f : Filled) × (read_loop n rb ≡ some f) × Taken rb n f
unfolding read_loop advance
read_loop-Taken zero rb v = (
  record { ring = rb; samples = []; read = 0 },
  refl,
  record { valid = v; same_size = refl; number = omega arith; filled = refl; queue = refl },
)
read_loop-Taken (suc n) rb v = elim (Nat-cases rb.count) [
  | inl e ↦ (
    record { ring = rb; samples = replicate (suc n) 0; read = 0 },
    read_loop-empty n rb e,
    record {
      valid = v;
      same_size = refl;
      number = omega arith;
      filled = ap (λ m. replicate m 0) {x = suc n} (omega arith);
      queue = refl;
    },
  )
  | inr (k, e) ↦
      let (f, runs, t) = read_loop-Taken n (advance rb) (advance-IsValid rb v k e) in
      let fetch = get_elem?-eq-get_or rb.buffer rb.read_pos 0 (omega (arith, v.read_in, v.sized)) in
      let split = contents-eq-cons rb v k e in
      let oldest = get_or rb.buffer rb.read_pos 0 in
      (
        record { ring = f.ring; samples = oldest ∷ f.samples; read = suc f.read },
        read_loop-some n rb oldest f (omega arith) fetch runs,
        record {
          valid = t.valid;
          same_size = t.same_size;
          number = omega (arith, t.number);
          filled = rw split (
              ap (◌∷◌ oldest) (
                t.filled
                ∙ ap (λ m. take f.read (contents (advance rb)) ++ replicate m 0) {x = n - f.read}
                    {y = suc n - suc f.read} (omega arith)));
          queue = rw split t.queue;
        },
      )
]

-- A Write never panics, and appends the first samples that fit to the queue.
pub write-Written :
    (rb : RingBuffer) (samples : List ℕ)
    → IsValid rb
    → (rb' : RingBuffer) × (n : ℕ) × (write rb samples ≡ some (rb', n)) × Written rb samples rb' n
unfolding write
write-Written rb samples v =
    let (rb', n, runs, t) = write_loop-Written samples rb 0 v in
    (rb', n, runs ∙ ap (λ i. some (rb', i)) (omega arith), t)

-- A Read never panics, and takes the oldest samples out of the queue.
pub read-Taken :
    (rb : RingBuffer) (n : ℕ) → IsValid rb → (f : Filled) × (read rb n ≡ some f) × Taken rb n f
unfolding read
read-Taken rb n v = read_loop-Taken n rb v
