-- ===== src/Receiver/TimeSync/Shortest.antt =====
-- The sample that a burst of pkg/sendspin/receiver.go picks.
use sendspin_go.Prelude.{
  ℕ, suc, ◌+◌, ◌≡◌, refl, sym, ap, ◌∙◌, inl, inr, true, false, List, [], ◌∷◌, Option, none, some,
  ◌==◌, if◌then◌else◌, arith, All, Bool-cases, length,
}
use sendspin_go.Prelude.Int.{ltb_ℤ, ◌≤ℤ◌, ◌<ℤ◌}
use sendspin_go.Prelude.Int64.{max_int64}
use sendspin_go.Receiver.TimeSync.{
  Sample, zero_sample, Reply, send_failed, responds, timed_out, cancelled, rtt, Best, consider,
  burst_loop, run_time_sync_burst,
}

-- The responses of a burst that is not cut short.
abbrev pub responses : List Reply → List Sample
responses [] = []
responses (send_failed ∷ rs) = responses rs
responses (responds s ∷ rs) = s ∷ responses rs
responses (timed_out ∷ rs) = responses rs
responses (cancelled ∷ rs) = responses rs

abbrev pub Completed : Reply → Type 0
Completed send_failed = Unit
Completed (responds s) = Unit
Completed timed_out = Unit
Completed cancelled = ⊥

-- The first of the samples with the shortest round trip, compared from the end.
abbrev pub shortest : Sample → List Sample → Sample
shortest s [] = s
shortest s (t ∷ ts) = let later = shortest t ts in if ltb_ℤ (rtt later) (rtt s) then later else s

-- What the loop holds after considering the samples.
abbrev pub considered : Best → List Sample → Best
considered b [] = b
considered b (s ∷ ss) = considered (consider b s) ss

burst_loop_lem :
    (replies : List Reply) (b : Best)
    → All Completed replies
    → burst_loop replies b ≡ some (considered b (responses replies))
unfolding burst_loop
burst_loop_lem [] b c = refl
burst_loop_lem (send_failed ∷ rs) b c = burst_loop_lem rs b c.1
burst_loop_lem (responds s ∷ rs) b c = burst_loop_lem rs (consider b s) c.1
burst_loop_lem (timed_out ∷ rs) b c = burst_loop_lem rs b c.1
burst_loop_lem (cancelled ∷ rs) b c = absurd c.0

valid-considered : (b : Best) (ss : List Sample) → (considered b ss).valid ≡ b.valid + length ss
unfolding consider
valid-considered b [] = omega arith
valid-considered b (s ∷ ss) =
    let more : (consider b s).valid ≡ suc b.valid = ground arith in
    valid-considered (consider b s) ss ∙ omega (arith, more)

shortest-le : (s : Sample) (ss : List Sample) → rtt (shortest s ss) ≤ℤ rtt s
shortest-le s [] = omega arith
shortest-le s (t ∷ ts) = ground arith

shortest-skip :
    (s t : Sample) (ts : List Sample)
    → ltb_ℤ (rtt t) (rtt s) ≡ false
    → shortest s (t ∷ ts) ≡ shortest s ts
shortest-skip s t [] e = ground (arith, e)
shortest-skip s t (u ∷ us) e = ground (arith, e)

shortest-take :
    (s t : Sample) (ts : List Sample)
    → ltb_ℤ (rtt t) (rtt s) ≡ true
    → shortest s (t ∷ ts) ≡ shortest t ts
shortest-take s t ts e = ground (arith, e, shortest-le t ts)

consider-take :
    (b : Best) (t : Sample)
    → ltb_ℤ (rtt t) b.best_rtt ≡ true
    → consider b t ≡ record { sample = t; best_rtt = rtt t; valid = suc b.valid }
unfolding consider
consider-take b t e = ground (arith, e)

consider-skip :
    (b : Best) (t : Sample)
    → ltb_ℤ (rtt t) b.best_rtt ≡ false
    → consider b t ≡ record b { valid = suc b.valid }
unfolding consider
consider-skip b t e = ground (arith, e)

-- Scanning from the front finds the sample that comparing from the end does.
considered-shortest :
    (s : Sample) (ss : List Sample) (n : ℕ)
    → (considered (record { sample = s; best_rtt = rtt s; valid = n }) ss).sample ≡ shortest s ss
considered-shortest s [] n = refl
considered-shortest s (t ∷ ts) n =
    let b : Best = record { sample = s; best_rtt = rtt s; valid = n } in
    elim (Bool-cases (ltb_ℤ (rtt t) (rtt s))) [
      | inl e ↦
          ap (λ c. (considered c ts).sample) (consider-take b t e)
          ∙ considered-shortest t ts (suc n)
          ∙ sym (shortest-take s t ts e)
      | inr e ↦
          ap (λ c. (considered c ts).sample) (consider-skip b t e)
          ∙ considered-shortest s ts (suc n)
          ∙ sym (shortest-skip s t ts e)
    ]

abbrev pub picked : List Sample → Option Sample
picked [] = none
picked (s ∷ ss) = some (shortest s ss)

run_time_sync_burst-some :
    (replies : List Reply) (b : Best)
    → burst_loop replies (record { sample = zero_sample; best_rtt = max_int64; valid = 0 }) ≡ some b
    → run_time_sync_burst replies ≡ (if b.valid == 0 then none else some b.sample)
unfolding run_time_sync_burst
run_time_sync_burst-some replies b h = ground (arith, h)

start : Best
start = record { sample = zero_sample; best_rtt = max_int64; valid = 0 }

answer : Best → Option Sample
answer b = if b.valid == 0 then none else some b.sample

answer-considered :
    (ss : List Sample) → All (λ s. rtt s <ℤ max_int64) ss → answer (considered start ss) ≡ picked ss
unfolding answer start
answer-considered [] h = refl
answer-considered (s ∷ ss) h =
    let b0 : Best = record { sample = zero_sample; best_rtt = max_int64; valid = 0 } in
    let b1 : Best = record { sample = s; best_rtt = rtt s; valid = 1 } in
    let below : ltb_ℤ (rtt s) max_int64 ≡ true = ground (arith, h.0) in
    let counted = valid-considered b1 ss in
    let some_valid : ((considered b1 ss).valid == 0) ≡ false = ground (arith, counted) in
    ap (λ c. answer (considered c ss)) (consider-take b0 s below)
    ∙ ap (λ z. if z then none else some (considered b1 ss).sample) some_valid
    ∙ ap some (considered-shortest s ss 1)

-- A burst that is not cut short, and whose round trips are below the int64 limit, gives the clock
-- filter the response with the shortest round trip, the first of them where several are equal; it
-- gives it nothing when no request was answered.
pub run_time_sync_burst_lem :
    (replies : List Reply)
    → All Completed replies
    → All (λ s. rtt s <ℤ max_int64) (responses replies)
    → run_time_sync_burst replies ≡ picked (responses replies)
unfolding answer start
run_time_sync_burst_lem replies done below =
    run_time_sync_burst-some replies (considered start (responses replies))
      (burst_loop_lem replies start done)
    ∙ answer-considered (responses replies) below
