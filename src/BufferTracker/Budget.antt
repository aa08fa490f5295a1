-- ===== src/BufferTracker/Budget.antt =====
-- The promise of the tracker: what generateAndSendChunk (pkg/sendspin/server_stream.go) has sent and
-- the client has not played stays within the client's byte capacity and the duration cap.
use sendspin_go.Prelude.{
  ℕ, ◌<◌, ◌≡◌, ◌∙◌, ◌↔◌, Bool, true, ◌&&◌, List, [], ◌∷◌, ◌++◌, inl, inr, arith, Bool-cases,
  if◌then◌else◌, All,
}
use sendspin_go.Prelude.Int.{ℤ, pos, ◌+ℤ◌, ◌≤ℤ◌, int_laws, ltb_ℤ, leb_ℤ}
use sendspin_go.Prelude.Int64.{wrap64-eq, add64, add64-eq, max_int64}
use sendspin_go.BufferTracker.{BufferedChunk, BufferTracker, can_send, new}
use sendspin_go.BufferTracker.Contents.{IsValid, contents, new-IsValid, total_bytes, total_duration}
use sendspin_go.BufferTracker.Prune.{drop_expired}

-- No size or duration is negative.
pub record IsNatural (c : BufferedChunk) : Type 0 where
  pub bytes : pos 0 ≤ℤ c.byte_count
  pub duration : pos 0 ≤ℤ c.duration_us

-- The tracker is well-formed and what it holds is within its limits, which are int64.
pub record WithinBudget (t : BufferTracker) : Type 0 where
  pub valid : IsValid t
  pub natural : All IsNatural (contents t)
  pub bytes : total_bytes (contents t) ≤ℤ t.capacity_bytes
  pub duration : total_duration (contents t) ≤ℤ t.max_duration_us
  pub capacity_fits : t.capacity_bytes ≤ℤ max_int64
  pub limit_fits : t.max_duration_us ≤ℤ max_int64

-- The sums of CanSend do not wrap for this chunk.
pub record Fits (t : BufferTracker) (c : BufferedChunk) : Type 0 where
  pub natural : IsNatural c
  pub bytes : t.capacity_bytes +ℤ c.byte_count ≤ℤ max_int64
  pub duration : t.max_duration_us +ℤ c.duration_us ≤ℤ max_int64

total_bytes_nonneg : (q : List BufferedChunk) → All IsNatural q → pos 0 ≤ℤ total_bytes q
total_bytes_nonneg [] n = omega arith
total_bytes_nonneg (c ∷ q) n = omega (int_laws, total_bytes_nonneg q n.1)

total_duration_nonneg : (q : List BufferedChunk) → All IsNatural q → pos 0 ≤ℤ total_duration q
total_duration_nonneg [] n = omega arith
total_duration_nonneg (c ∷ q) n = omega (int_laws, total_duration_nonneg q n.1)

-- Within the budget the counters are the true sums.
pub counters_exact :
    (t : BufferTracker)
    → WithinBudget t
    → (t.buffered_bytes ≡ total_bytes (contents t))
      × (t.buffered_duration_us ≡ total_duration (contents t))
counters_exact t b = (
  b.valid.bytes ∙ wrap64-eq _ (omega (arith, total_bytes_nonneg (contents t) b.natural)),
  b.valid.duration ∙ wrap64-eq _ (omega (arith, total_duration_nonneg (contents t) b.natural)),
)

-- Pruning never takes the tracker out of its budget.
pub record Smaller (q r : List BufferedChunk) : Type 0 where
  pub natural : All IsNatural q
  pub bytes : total_bytes q ≤ℤ total_bytes r
  pub duration : total_duration q ≤ℤ total_duration r

pub drop_expired-Smaller :
    (now : ℤ) (q : List BufferedChunk) → All IsNatural q → Smaller (drop_expired now q) q
drop_expired-Smaller now [] n = record { natural = tt; bytes = omega arith; duration = omega arith }
drop_expired-Smaller now (c ∷ q) n = elim (Bool-cases (ltb_ℤ now c.end_time_us)) [
  | inl early ↦ rw early (record { natural = n; bytes = omega arith; duration = omega arith })
  | inr late ↦
      let s = drop_expired-Smaller now q n.1 in
      rw late (record {
        natural = s.natural;
        bytes = omega (int_laws, s.bytes, n.0.bytes);
        duration = omega (int_laws, s.duration, n.0.duration);
      })
]

-- What CanSend decides, over the true sums.
unfoldable pub room_for : ℤ → ℤ → List BufferedChunk → BufferedChunk → Bool
room_for capacity limit q c =
    leb_ℤ (total_bytes q +ℤ c.byte_count) capacity
    && leb_ℤ (total_duration q +ℤ c.duration_us) limit

pub room_for-true :
    (capacity limit : ℤ) (q : List BufferedChunk) (c : BufferedChunk)
    → room_for capacity limit q c ≡ true
    → (total_bytes q +ℤ c.byte_count ≤ℤ capacity) × (total_duration q +ℤ c.duration_us ≤ℤ limit)
unfolding room_for
room_for-true capacity limit q c h = ground arith

pub can_send-room_for :
    (t : BufferTracker) (c : BufferedChunk)
    → WithinBudget t
    → Fits t c
    → can_send t c.byte_count c.duration_us
      ≡ room_for t.capacity_bytes t.max_duration_us (contents t) c
unfolding can_send room_for
can_send-room_for t c b f =
    let (bytes, duration) = counters_exact t b in
    let low = total_bytes_nonneg (contents t) b.natural in
    let short = total_duration_nonneg (contents t) b.natural in
    let sum_b : add64 t.buffered_bytes c.byte_count ≡ total_bytes (contents t) +ℤ c.byte_count =
      rw bytes (add64-eq _ _ (omega (int_laws, f.bytes, f.natural.bytes, b.bytes))) in
    let sum_d : add64 t.buffered_duration_us c.duration_us
        ≡ total_duration (contents t) +ℤ c.duration_us =
      rw duration (add64-eq _ _ (omega (int_laws, f.duration, f.natural.duration, b.duration))) in
    rw (sum_b, sum_d) (ground arith)

-- For a well-formed tracker within its budget CanSend answers true exactly when the held chunks
-- and the new one together stay within the byte capacity and within the duration cap.
pub can_send_lem :
    (t : BufferTracker) (c : BufferedChunk)
    → WithinBudget t
    → Fits t c
    → (can_send t c.byte_count c.duration_us ≡ true) ↔ (
        (total_bytes (contents t) +ℤ c.byte_count ≤ℤ t.capacity_bytes)
        × (total_duration (contents t) +ℤ c.duration_us ≤ℤ t.max_duration_us))
unfolding room_for
can_send_lem t c b f = rw (can_send-room_for t c b f) (ground arith)

-- The offer of a chunk, over the queue of held chunks: the answer and the queue after it.
abbrev pub offer_queue :
    ℤ → ℤ → List BufferedChunk → ℤ → BufferedChunk → Bool → Bool × List BufferedChunk
offer_queue capacity limit q now c enqueued =
    let held = drop_expired now q in
    let sent = room_for capacity limit held c && enqueued in
    (sent, if sent then held ++ c ∷ [] else held)

-- NewBufferTracker starts within the budget.
pub new-WithinBudget :
    (slots : ℕ) (capacity : ℤ)
    → 0 < slots
    → capacity ≤ℤ max_int64
    → WithinBudget (new slots capacity)
unfolding new
new-WithinBudget slots capacity h fits = record {
  valid = new-IsValid slots capacity h;
  natural = tt;
  bytes = ground arith;
  duration = omega arith;
  capacity_fits = ground arith;
  limit_fits = omega arith;
}
