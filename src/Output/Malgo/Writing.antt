-- ===== src/Output/Malgo/Writing.antt =====
-- The loop of Malgo.Write in pkg/audio/output/malgo.go: what it queues, what it drops, and that it
-- returns.
use mathlib.Core.Path.{subst}
use native.Mathlib.Decide.{dec_lt}
use mathlib.Core.List.{append_assoc, append-nil}
use sendspin_go.Prelude.{
  ℕ, zero, suc, ◌+◌, ◌-◌, ◌*◌, ◌≤◌, ◌<◌, ◌≡◌, refl, sym, ap, ◌∙◌, ◌⊎◌, inl, inr, List, [], ◌∷◌,
  ◌++◌, some, arith, length, take, drop, take-append-drop,
}
use sendspin_go.Output.RingBuffer.{RingBuffer, write, read, free}
use sendspin_go.Output.RingBuffer.Fifo.{
  contents, IsValid, Written, Taken, write-Written, read-Taken,
}
use sendspin_go.Output.Malgo.{
  Pass, Outcome, written, stalled, waiting, panics, Next, advances, waits, gives_up, next,
  max_stall_time_ns, retry_interval_ns, write_passes,
}

-- Where a pass leads.
abbrev pub go_on : List Pass → List ℕ → RingBuffer → Next → Outcome
go_on passes samples ring (advances rest) = write_passes passes rest 0 ring
go_on passes samples ring (waits since) =
    write_passes passes samples (since + retry_interval_ns) ring
go_on passes samples ring gives_up = stalled ring (length samples)

write_passes-cons :
    (p : Pass) (passes : List Pass) (x : ℕ) (samples : List ℕ) (since : ℕ) (ring : RingBuffer)
    (f : _) (w : RingBuffer) (n : ℕ)
    → read ring p.drained ≡ some f
    → write f.ring (x ∷ samples) ≡ some (w, n)
    → write_passes (p ∷ passes) (x ∷ samples) since ring
      ≡ go_on passes (x ∷ samples) w (next (x ∷ samples) (since + p.elapsed_ns) n)
unfolding write_passes
write_passes-cons p passes x samples since ring f w n r e = ground (arith, r, e)

next-cases :
    (samples : List ℕ) (since n : ℕ)
    → ((n ≡ 0) × (since ≤ max_stall_time_ns) × (next samples since n ≡ waits since))
      ⊎ (((n ≡ 0) × (next samples since n ≡ gives_up))
          ⊎ ((0 < n) × (next samples since n ≡ advances (drop n samples))))
unfolding next
next-cases samples since n = elim (dec_lt 0 n) [
  | yes p ↦ inr (inr (p, ground arith))
  | no z ↦ elim (dec_lt max_stall_time_ns since) [
    | yes q ↦ inr (inl (omega arith, ground arith))
    | no q ↦ inl (omega arith, omega arith, ground arith)
  ]
]

-- What happened to the samples: the callback has been handed `out`, and the ring holds the rest of
-- what it held and was given.
pub record Queued (ring : RingBuffer) (accepted : List ℕ) (ring' : RingBuffer) : Type 0 where
  pub valid : IsValid ring'
  pub out : List ℕ
  pub order : out ++ contents ring' ≡ contents ring ++ accepted

-- A Write that succeeds has queued every sample; one that gives up has queued all but the last
-- ones, whose number it reports, and leaves the ring full.
abbrev pub Accounts : RingBuffer → List ℕ → Outcome → Type 0
Accounts ring samples (written r) = Queued ring samples r
Accounts ring samples (stalled r dropped) =
    (accepted rest : List ℕ) × (accepted ++ rest ≡ samples)
    × (length rest ≡ dropped)
    × Queued ring accepted r
    × (r.count ≡ r.size)
Accounts ring samples (waiting r rest) =
    (accepted : List ℕ) × (accepted ++ rest ≡ samples) × Queued ring accepted r
Accounts ring samples panics = ⊥

-- One pass puts `take n samples` behind what the callback leaves.
Queued-pass :
    (ring : RingBuffer) (d n : ℕ) (f : _) (samples : List ℕ) (r : RingBuffer)
    → Taken ring d f
    → Written f.ring samples r n
    → Queued ring (take n samples) r
Queued-pass ring d n f samples r t w = record {
  valid = w.valid;
  out = take f.read (contents ring);
  order =
      ap (◌++◌ (take f.read (contents ring))) (w.queue ∙ ap (λ q. q ++ take n samples) t.queue)
      ∙ sym (
          append_assoc (take f.read (contents ring)) (drop f.read (contents ring)) (take n samples))
      ∙ ap (λ q. q ++ take n samples) (take-append-drop f.read (contents ring));
}

Queued-trans :
    (a b c : RingBuffer) (xs ys : List ℕ) → Queued a xs b → Queued b ys c → Queued a (xs ++ ys) c
Queued-trans a b c xs ys p q = record {
  valid = q.valid;
  out = p.out ++ q.out;
  order =
      append_assoc p.out q.out (contents c)
      ∙ ap (◌++◌ p.out) q.order
      ∙ sym (append_assoc p.out (contents b) ys)
      ∙ ap (λ l. l ++ ys) p.order
      ∙ append_assoc (contents a) xs ys;
}

Queued-refl : (a : RingBuffer) → IsValid a → Queued a [] a
Queued-refl a v = record { valid = v; out = []; order = sym (append-nil (contents a)) }

Accounts-after :
    (a b : RingBuffer) (n : ℕ) (samples : List ℕ) (o : Outcome)
    → Queued a (take n samples) b
    → Accounts b (drop n samples) o
    → Accounts a samples o
Accounts-after a b n samples (written r) p q =
    subst (λ l. Queued a l r) (take-append-drop n samples)
      (Queued-trans a b r (take n samples) (drop n samples) p q)
Accounts-after a b n samples (stalled r k) p (accepted, rest, e, l, q, full) = (
  take n samples ++ accepted,
  rest,
  append_assoc (take n samples) accepted rest
      ∙ ap (◌++◌ (take n samples)) e
      ∙ take-append-drop n samples,
  l,
  Queued-trans a b r (take n samples) accepted p q,
  full,
)
Accounts-after a b n samples (waiting r rest) p (accepted, e, q) = (
  take n samples ++ accepted,
  append_assoc (take n samples) accepted rest
      ∙ ap (◌++◌ (take n samples)) e
      ∙ take-append-drop n samples,
  Queued-trans a b r (take n samples) accepted p q,
)
Accounts-after a b n samples panics p q = q

write_passes-nil :
    (passes : List Pass) (since : ℕ) (ring : RingBuffer)
    → write_passes passes [] since ring ≡ written ring
unfolding write_passes
write_passes-nil [] since ring = refl
write_passes-nil (p ∷ passes) since ring = refl

-- A pass that takes nothing leaves a full ring.
full_ring :
    (ring r : RingBuffer) (x : ℕ) (samples : List ℕ)
    → IsValid ring
    → Written ring (x ∷ samples) r 0
    → r.count ≡ r.size
unfolding free
full_ring ring r x samples v w = omega (arith, w.number, w.held, w.same_size, v.count_in)

-- Whatever the callback reads and however long the passes last, Write never panics, and it accounts
-- for every sample: when it succeeds all of them are queued behind what the ring held; when it
-- gives up the ring is full, a first part of them is queued, and the number that it reports as
-- dropped is the length of the rest.
pub write_passes-Accounts :
    (passes : List Pass) (samples : List ℕ) (since : ℕ) (ring : RingBuffer)
    → IsValid ring
    → Accounts ring samples (write_passes passes samples since ring)
unfolding write_passes
write_passes-Accounts passes [] since ring v =
    subst (Accounts ring []) (sym (write_passes-nil passes since ring)) (Queued-refl ring v)
write_passes-Accounts [] (x ∷ samples) since ring v = ([], refl, Queued-refl ring v)
write_passes-Accounts (p ∷ passes) (x ∷ samples) since ring v =
    let all = x ∷ samples in
    let (f, reads, t) = read-Taken ring p.drained v in
    let (r, n, writes, w) = write-Written f.ring all t.valid in
    let runs = write_passes-cons p passes x samples since ring f r n reads writes in
    let moved = Queued-pass ring p.drained n f all r t w in
    subst (Accounts ring all) (sym runs) (elim (next-cases all (since + p.elapsed_ns) n) [
      | inl (z, le, e) ↦
          subst (λ g. Accounts ring all (go_on passes all r g)) (sym e)
            (Accounts-after ring r 0 all _ (subst (λ m. Queued ring (take m all) r) z moved) (
              write_passes-Accounts passes all (since + p.elapsed_ns + retry_interval_ns) r
                w.valid))
      | inr (inl (z, e)) ↦
          subst (λ g. Accounts ring all (go_on passes all r g)) (sym e)
            (
              [],
              all,
              refl,
              refl,
              subst (λ m. Queued ring (take m all) r) z moved,
              full_ring f.ring r x samples t.valid (subst (Written f.ring all r) z w),
            )
      | inr (inr (q, e)) ↦
          subst (λ g. Accounts ring all (go_on passes all r g)) (sym e)
            (Accounts-after ring r n all _ moved
              (write_passes-Accounts passes (drop n all) 0 r w.valid))
    ])

-- Write has returned, with or without an error.
abbrev pub Returned : Outcome → Type 0
Returned (written r) = Unit
Returned (stalled r dropped) = Unit
Returned (waiting r rest) = ⊥
Returned panics = ⊥

length-drop : (n : ℕ) (xs : List ℕ) → length (drop n xs) ≡ length xs - n
length-drop zero xs = omega arith
length-drop (suc n) [] = omega arith
length-drop (suc n) (x ∷ xs) = omega (arith, length-drop n xs)

write_passes-Returned_from :
    (passes : List Pass) (samples : List ℕ) (since : ℕ) (ring : RingBuffer)
    → IsValid ring
    → since ≤ 51 * retry_interval_ns
    → 52 * retry_interval_ns * length samples < retry_interval_ns * length passes + since + 1
    → Returned (write_passes passes samples since ring)
write_passes-Returned_from passes [] since ring v low enough =
    subst Returned (sym (write_passes-nil passes since ring)) tt
write_passes-Returned_from [] (x ∷ samples) since ring v low enough = absurd (omega arith)
write_passes-Returned_from (p ∷ passes) (x ∷ samples) since ring v low enough =
    let all = x ∷ samples in
    let (f, reads, t) = read-Taken ring p.drained v in
    let (r, n, writes, w) = write-Written f.ring all t.valid in
    let runs = write_passes-cons p passes x samples since ring f r n reads writes in
    subst Returned (sym runs) (elim (next-cases all (since + p.elapsed_ns) n) [
      | inl (z, le, e) ↦
          subst (λ g. Returned (go_on passes all r g)) (sym e)
            (write_passes-Returned_from passes all (since + p.elapsed_ns + retry_interval_ns) r
              w.valid (omega arith) (omega arith))
      | inr (inl (z, e)) ↦ subst (λ g. Returned (go_on passes all r g)) (sym e) tt
      | inr (inr (q, e)) ↦
          subst (λ g. Returned (go_on passes all r g)) (sym e)
            (write_passes-Returned_from passes (drop n all) 0 r w.valid (omega arith)
              (omega (arith, length-drop n all)))
    ])

-- Write always returns: whatever the callback does and however long the passes last, it has queued
-- all its samples or given up within 52 passes for each of them.
pub write_passes-Returned :
    (passes : List Pass) (samples : List ℕ) (ring : RingBuffer)
    → IsValid ring
    → 52 * length samples ≤ length passes
    → Returned (write_passes passes samples 0 ring)
write_passes-Returned passes samples ring v enough =
    write_passes-Returned_from passes samples 0 ring v (omega arith) (omega arith)
