-- ===== src/BufferTracker/Offers.antt =====
-- Whole sequences of chunks offered to one client: the send-ahead pacing of generateAndSendChunk
-- (pkg/sendspin/server_stream.go) as a machine over the queue of held chunks.
use mathlib.Core.Path.{subst}
use sendspin_go.Prelude.{
  ◌≡◌, refl, ◌∙◌, Bool, true, false, ◌&&◌, List, [], ◌∷◌, ◌++◌, Option, none, some, arith,
  if◌then◌else◌, All, All-append, All-mono,
}
use sendspin_go.Prelude.Int.{ℤ, pos, ◌+ℤ◌, ◌≤ℤ◌, int_laws}
use sendspin_go.BufferTracker.{
  BufferedChunk, BufferTracker, prune_consumed, can_send, register, offer,
}
use sendspin_go.BufferTracker.Contents.{
  contents, total_bytes, total_duration, total_bytes-append, total_duration-append,
}
use sendspin_go.BufferTracker.Prune.{Holds, Holds-trans, drop_expired, prune_consumed_refines}
use sendspin_go.BufferTracker.Register.{register_refines}
use sendspin_go.BufferTracker.Budget.{
  IsNatural, WithinBudget, Fits, drop_expired-Smaller, can_send-room_for, room_for, room_for-true,
  offer_queue,
}

Holds-WithinBudget :
    {t t' : BufferTracker} {q : List BufferedChunk}
    → Holds t q t'
    → WithinBudget t
    → All IsNatural q
    → total_bytes q ≤ℤ t.capacity_bytes
    → total_duration q ≤ℤ t.max_duration_us
    → WithinBudget t'
Holds-WithinBudget {t} h b n x y = record {
  valid = h.valid;
  natural = rw h.holds n;
  bytes = rw (h.holds, h.capacity) x;
  duration = rw (h.holds, h.limit) y;
  capacity_fits = rw h.capacity b.capacity_fits;
  limit_fits = rw h.limit b.limit_fits;
}

-- After the offer the tracker holds the queue `q` within the same budget.
pub record Offered (t : BufferTracker) (q : List BufferedChunk) (t' : BufferTracker) : Type 0 where
  pub holds : Holds t q t'
  pub within : WithinBudget t'

offer_fitting :
    (t p : BufferTracker) (c : BufferedChunk)
    → WithinBudget p
    → IsNatural c
    → room_for p.capacity_bytes p.max_duration_us (contents p) c ≡ true
    → (t' : BufferTracker) × (register p c ≡ some t') × Offered p (contents p ++ c ∷ []) t'
offer_fitting t p c b n yes_room =
    let (t', runs, h) = register_refines p c b.valid in
    (
      t',
      runs,
      record {
        holds = h;
        within =
            Holds-WithinBudget h b (All-append IsNatural (contents p) (c ∷ []) b.natural (n, tt))
              (rw (total_bytes-append (contents p) (c ∷ [])) bytes)
              (rw (total_duration-append (contents p) (c ∷ [])) duration);
      },
    )
  where
    fits :
        (total_bytes (contents p) +ℤ c.byte_count ≤ℤ p.capacity_bytes)
        × (total_duration (contents p) +ℤ c.duration_us ≤ℤ p.max_duration_us)
    fits = room_for-true _ _ (contents p) c yes_room

    bytes : total_bytes (contents p) +ℤ (c.byte_count +ℤ pos 0) ≤ℤ p.capacity_bytes
    bytes = omega (int_laws, fits)

    duration : total_duration (contents p) +ℤ (c.duration_us +ℤ pos 0) ≤ℤ p.max_duration_us
    duration = omega (int_laws, fits)

-- One chunk of the stream for one client: the tick's time, the chunk, and whether the send queue
-- took it.
pub record Attempt : Type 0 where
  pub now : ℤ
  pub chunk : BufferedChunk
  pub enqueued : Bool

abbrev pub attempt_queue : BufferTracker → List BufferedChunk → Attempt → Bool × List BufferedChunk
attempt_queue t q a = offer_queue t.capacity_bytes t.max_duration_us q a.now a.chunk a.enqueued

offer_cases :
    (t p : BufferTracker) (a : Attempt) (room sent : Bool)
    → prune_consumed t a.now ≡ some p
    → WithinBudget p
    → IsNatural a.chunk
    → room_for p.capacity_bytes p.max_duration_us (contents p) a.chunk ≡ room
    → a.enqueued ≡ sent
    → can_send p a.chunk.byte_count a.chunk.duration_us ≡ room
    → (t' : BufferTracker) × (offer t a.now a.chunk a.enqueued ≡ some (room && sent, t'))
      × Offered p (if room && sent then contents p ++ a.chunk ∷ [] else contents p) t'
unfolding offer
offer_cases t p a true true prunes b n r s asks =
    let (t', runs, o) = offer_fitting t p a.chunk b n r in
    (t', rw (prunes, asks, s, runs, offer), o)
offer_cases t p a true false prunes b n r s asks = (
  p,
  rw (prunes, asks, s, offer),
  record {
    holds = record { valid = b.valid; holds = refl; capacity = refl; limit = refl };
    within = b;
  },
)
offer_cases t p a false sent prunes b n r s asks = (
  p,
  rw (prunes, asks, offer),
  record {
    holds = record { valid = b.valid; holds = refl; capacity = refl; limit = refl };
    within = b;
  },
)

-- One offer on a tracker within its budget does not panic; it drops the chunks that have ended,
-- records the new chunk exactly if both limits allow it and the send queue took it, and leaves the
-- tracker within its budget.
pub offer_refines :
    (t : BufferTracker) (a : Attempt)
    → WithinBudget t
    → Fits t a.chunk
    → (t' : BufferTracker) × (offer t a.now a.chunk a.enqueued
        ≡ some ((attempt_queue t (contents t) a).0, t'))
      × Offered t (attempt_queue t (contents t) a).1 t'
offer_refines t a b f =
    let (p, prunes, h) = prune_consumed_refines t a.now b.valid in
    let s = drop_expired-Smaller a.now (contents t) b.natural in
    let w = Holds-WithinBudget h b s.natural (omega arith) (omega arith) in
    let fp : Fits p a.chunk = record {
      natural = f.natural;
      bytes = rw h.capacity f.bytes;
      duration = rw h.limit f.duration;
    } in
    let room =
      room_for t.capacity_bytes t.max_duration_us (drop_expired a.now (contents t)) a.chunk in
    let same : room_for p.capacity_bytes p.max_duration_us (contents p) a.chunk ≡ room =
      rw (h.holds, h.capacity, h.limit) in
    let (t', runs, o) =
      offer_cases t p a room a.enqueued prunes w f.natural same refl
        (can_send-room_for p a.chunk w fp ∙ same) in
    (
      t',
      runs,
      record {
        holds = Holds-trans h (
            subst (λ q. Holds p (if room && a.enqueued then q ++ a.chunk ∷ [] else q) t') h.holds
              o.holds);
        within = o.within;
      },
    )

-- A run of attempts; the answers are collected.
unfoldable pub run : BufferTracker → List Attempt → Option (List Bool × BufferTracker)
run t [] = some ([], t)
run t (a ∷ as') = elim (offer t a.now a.chunk a.enqueued) [
  | none ↦ none
  | some (sent, t') ↦ elim (run t' as') [
    | none ↦ none
    | some (sents, t'') ↦ some (sent ∷ sents, t'')
  ]
]

abbrev pub run_queue : ℤ → ℤ → List BufferedChunk → List Attempt → List Bool
run_queue capacity limit q [] = []
run_queue capacity limit q (a ∷ as') =
    let (sent, q') = offer_queue capacity limit q a.now a.chunk a.enqueued in
    sent ∷ run_queue capacity limit q' as'

-- A run of attempts on a tracker within its budget, none of whose chunks makes a sum of CanSend
-- wrap, does not panic; its answers are those of the plain queue, and it ends within the budget.
pub run_refines :
    (as' : List Attempt) (t : BufferTracker)
    → WithinBudget t
    → All (λ a. Fits t a.chunk) as'
    → (t' : BufferTracker) × (run t as'
        ≡ some (run_queue t.capacity_bytes t.max_duration_us (contents t) as', t'))
      × WithinBudget t'
unfolding run
run_refines [] t b f = (t, refl, b)
run_refines (a ∷ as') t b f =
    let (u, runs, o) = offer_refines t a b f.0 in
    let (t', rest, w) = run_refines as' u o.within (fits_after u o.holds.capacity o.holds.limit) in
    let same : run_queue u.capacity_bytes u.max_duration_us (contents u) as'
        ≡ run_queue t.capacity_bytes t.max_duration_us (attempt_queue t (contents t) a).1 as' =
      rw (o.holds.capacity, o.holds.limit, o.holds.holds) in
    (t', rw (runs, run, rest, same), w)
  where
    fits_after :
        (u : BufferTracker)
        → u.capacity_bytes ≡ t.capacity_bytes
        → u.max_duration_us ≡ t.max_duration_us
        → All (λ c. Fits u c.chunk) as'
    fits_after u p q =
        All-mono (λ c. Fits t c.chunk) (λ c. Fits u c.chunk) as'
          (λ c g. record { natural = g.natural; bytes = rw p g.bytes; duration = rw q g.duration })
          f.1
