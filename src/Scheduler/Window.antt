-- ===== src/Scheduler/Window.antt =====
-- Which buffers the scheduler of pkg/sendspin/scheduler.go plays, drops and keeps, and the heap
-- order, whatever other goroutines do while it sends.
use mathlib.Core.List.{append-nil, append_assoc}
use sendspin_go.Prelude.{
  List-cases, ℕ, zero, suc, ◌+◌, ◌≡◌, ◌↔◌, refl, sym, ap, ◌∙◌, false, List, [], ◌∷◌, ◌++◌, inl, inr,
  arith, length, All, All-append, length-append, if◌then◌else◌, Bool-cases,
}
use sendspin_go.Prelude.Int.{
  ℤ, pos, pos_part, neg_part, ltb_ℤ, leb_ℤ, ◌+ℤ◌, ◌-ℤ◌, ◌≤ℤ◌, ◌<ℤ◌, -ℤ_parts, +ℤ_parts,
}
use sendspin_go.Audio.{Buffer}
use sendspin_go.BufferQueue.{pop}
use sendspin_go.BufferQueue.Order.{IsHeap}
use sendspin_go.BufferQueue.PushPop.{push-IsHeap, pop-Popped}
use sendspin_go.Scheduler.Steps.{
  step-empty, step-early, step-late, step-blocked, step-cancelled, step-accepted, queue-running,
  queue-filling, queue-filled,
}
use sendspin_go.Scheduler.{
  Scheduler, window, Timing, minus_window, saturate, classify, clear, drop_late, take_ready, emit,
  Call, Send, schedules, clears, accepted, cancelled, timed, schedule, interfere, process_loop,
  process_queue,
}

abbrev pub IsEarly : ℤ → Buffer → Type 0
IsEarly now b = now +ℤ window <ℤ b.play_at

abbrev pub IsLate : ℤ → Buffer → Type 0
IsLate now b = b.play_at +ℤ window <ℤ now

abbrev pub IsReady : ℤ → Buffer → Type 0
IsReady now b = (b.play_at ≤ℤ now +ℤ window) × (now ≤ℤ b.play_at +ℤ window)

saturate_tests :
    (d : ℤ)
    → (ltb_ℤ window (saturate d) ≡ ltb_ℤ window d)
      × (ltb_ℤ (saturate d) minus_window ≡ ltb_ℤ d minus_window)
unfolding saturate
saturate_tests d = (ground arith, ground arith)

classify_sub :
    (b : Buffer) (now : ℤ)
    → classify b now ≡ (
        if ltb_ℤ window (b.play_at -ℤ now)
        then Timing.early
        else if ltb_ℤ (b.play_at -ℤ now) minus_window
        then Timing.late
        else Timing.ready)
unfolding classify
classify_sub b now =
    rw ((saturate_tests (b.play_at -ℤ now)).0, (saturate_tests (b.play_at -ℤ now)).1)

-- The test of processQueue tells apart the buffers that are more than 50 ms early, more than 50 ms
-- late, or in between, also where the difference of the times is beyond a Duration.
pub classify_lem :
    (b : Buffer) (now : ℤ)
    → ((classify b now ≡ Timing.early) ↔ IsEarly now b)
      × ((classify b now ≡ Timing.late) ↔ IsLate now b)
      × ((classify b now ≡ Timing.ready) ↔ IsReady now b)
classify_lem b now = rw (classify_sub b now) (
  (λ h. ground (arith, sub, sum, back), λ h. ground (arith, sub, sum, back)),
  (λ h. ground (arith, sub, sum, back), λ h. ground (arith, sub, sum, back)),
  (λ h. ground (arith, sub, sum, back), λ h. ground (arith, sub, sum, back)),
)
  where
    sub :
        pos_part (b.play_at -ℤ now) + neg_part b.play_at + pos_part now
        ≡ neg_part (b.play_at -ℤ now) + pos_part b.play_at + neg_part now
    sub = -ℤ_parts b.play_at now

    sum :
        pos_part (now +ℤ window) + neg_part now + neg_part window
        ≡ neg_part (now +ℤ window) + pos_part now + pos_part window
    sum = +ℤ_parts now window

    back :
        pos_part (b.play_at +ℤ window) + neg_part b.play_at + neg_part window
        ≡ neg_part (b.play_at +ℤ window) + pos_part b.play_at + pos_part window
    back = +ℤ_parts b.play_at window

-- What a run of processQueue has done when it ends, in whichever way.
pub record Sound (now : ℤ) (s r : Scheduler) : Type 0 where
  pub heap : IsHeap r.buffer_q
  pub sent : List Buffer
  pub adds : r.output ≡ s.output ++ sent
  pub in_time : All (IsReady now) sent
  pub counts : r.played ≡ s.played + length sent

Sound-refl :
    (now : ℤ) (s r : Scheduler)
    → IsHeap r.buffer_q
    → r.output ≡ s.output
    → r.played ≡ s.played
    → Sound now s r
Sound-refl now s r h o p = record {
  heap = h;
  sent = [];
  adds = o ∙ sym (append-nil s.output);
  in_time = tt;
  counts = omega arith;
}

Sound-trans : {now : ℤ} {s t r : Scheduler} → Sound now s t → Sound now t r → Sound now s r
Sound-trans {now} {s} a b = record {
  heap = b.heap;
  sent = a.sent ++ b.sent;
  adds = b.adds ∙ ap (λ o. o ++ b.sent) a.adds ∙ append_assoc s.output a.sent b.sent;
  in_time = All-append (IsReady now) a.sent b.sent a.in_time b.in_time;
  counts = omega (arith, a.counts, b.counts, length-append a.sent b.sent);
}

emit-Sound :
    (now : ℤ) (b : Buffer) (s : Scheduler)
    → IsHeap s.buffer_q
    → IsReady now b
    → Sound now s (emit b s)
unfolding emit
emit-Sound now b s h r = record {
  heap = h;
  sent = b ∷ [];
  adds = refl;
  in_time = (r, tt);
  counts = refl;
}

module _ (to_local : ℤ → ℤ) where
  pub interfere-IsHeap :
      (calls : List Call) (s : Scheduler)
      → IsHeap s.buffer_q
      → IsHeap (interfere to_local calls s).buffer_q
  unfolding interfere
  interfere-IsHeap [] s h = h
  interfere-IsHeap (schedules b ∷ calls) s h =
      interfere-IsHeap calls (schedule to_local s b)
        (push-IsHeap s.buffer_q (timed to_local s.static_delay b) h).0
  interfere-IsHeap (clears ∷ calls) s h = interfere-IsHeap calls (clear s) (λ c p l. elim l [ ])

  interfere-output :
      (calls : List Call) (s : Scheduler) → (interfere to_local calls s).output ≡ s.output
  unfolding interfere
  interfere-output [] s = refl
  interfere-output (schedules b ∷ calls) s = interfere-output calls (schedule to_local s b)
  interfere-output (clears ∷ calls) s = interfere-output calls (clear s)

  interfere-played :
      (calls : List Call) (s : Scheduler) → (interfere to_local calls s).played ≡ s.played
  unfolding interfere
  interfere-played [] s = refl
  interfere-played (schedules b ∷ calls) s = interfere-played calls (schedule to_local s b)
  interfere-played (clears ∷ calls) s = interfere-played calls (clear s)

  accepted-Sound :
      (now : ℤ) (b : Buffer) (calls : List Call) (s : Scheduler)
      → IsHeap s.buffer_q
      → IsReady now b
      → Sound now s (interfere to_local calls (emit b s))
  accepted-Sound now b calls s h r =
      let t = emit b s in
      Sound-trans (emit-Sound now b s h r) (
        Sound-refl now t (interfere to_local calls t)
          (interfere-IsHeap calls t (emit-Sound now b s h r).heap) (interfere-output calls t)
          (interfere-played calls t))

  popped-Sound :
      (now : ℤ) (s t : Scheduler) (b : Buffer) (rest : List Buffer)
      → IsHeap s.buffer_q
      → s.buffer_q ≡ b ∷ rest
      → t.buffer_q ≡ (pop s.buffer_q).1
      → t.output ≡ s.output
      → t.played ≡ s.played
      → Sound now s t
  popped-Sound now s t b rest h e q =
      Sound-refl now s t (rw q (pop-Popped b rest s.buffer_q e h).heap)

  -- One round at a queue that is not empty, given what the later rounds do.
  round-Sound :
      (k : ℕ) (now : ℤ) (s : Scheduler) (b : Buffer) (rest : List Buffer)
      → ((env : List Send) (t : Scheduler)
          → IsHeap t.buffer_q
          → Sound now t (process_loop to_local k env now t).1)
      → IsHeap s.buffer_q
      → s.buffer_q ≡ b ∷ rest
      → (env : List Send) (timing : Timing) → classify b now ≡ timing
      → Sound now s (process_loop to_local (suc k) env now s).1
  unfolding drop_late take_ready
  round-Sound k now s b rest later h e env Timing.early c =
      rw (step-early to_local k env now s b rest e c) (Sound-refl now s s h refl refl)
  round-Sound k now s b rest later h e env Timing.late c =
      let first = popped-Sound now s (drop_late s) b rest h e refl refl refl in
      rw (step-late to_local k env now s b rest e c)
        (Sound-trans first (later env (drop_late s) first.heap))
  round-Sound k now s b rest later h e [] Timing.ready c =
      rw (step-blocked to_local k [] now s b rest e c refl)
        (popped-Sound now s (take_ready s) b rest h e refl refl refl)
  round-Sound k now s b rest later h e (cancelled ∷ env') Timing.ready c =
      rw (step-cancelled to_local k (cancelled ∷ env') now s b rest e env' c refl)
        (popped-Sound now s (take_ready s) b rest h e refl refl refl)
  round-Sound k now s b rest later h e (accepted calls ∷ env') Timing.ready c =
      let first = popped-Sound now s (take_ready s) b rest h e refl refl refl in
      let ready = (classify_lem b now).2.0 c in
      let second = accepted-Sound now b calls (take_ready s) first.heap ready in
      rw (step-accepted to_local k (accepted calls ∷ env') now s b rest e calls env' c refl)
        (Sound-trans first (Sound-trans second (later env' _ second.heap)))

  process_loop-Sound :
      (k : ℕ) (now : ℤ) (env : List Send) (s : Scheduler)
      → IsHeap s.buffer_q
      → Sound now s (process_loop to_local k env now s).1
  unfolding process_loop
  process_loop-Sound zero now env s h = Sound-refl now s s h refl refl
  process_loop-Sound (suc k) now env s h = elim (List-cases s.buffer_q) [
    | inl none_left ↦
        rw (step-empty to_local k env now s none_left) (Sound-refl now s s h refl refl)
    | inr (b, rest, some_left) ↦
        round-Sound k now s b rest (process_loop-Sound k now) h some_left env (classify b now) refl
  ]

  -- Whatever other goroutines do while processQueue sends, and however its sends end: the queue
  -- stays a heap, each buffer sent on the output channel was at most 50 ms early or late at the
  -- time of the tick, and the played counter counts exactly those.
  pub process_queue-Sound :
      (k : ℕ) (now : ℤ) (env : List Send) (s : Scheduler)
      → IsHeap s.buffer_q
      → Sound now s (process_queue to_local k env now s).1
  process_queue-Sound k now env s h = elim (Bool-cases s.buffering) [
    | inr playing ↦
        rw (queue-running to_local k env now s playing) (process_loop-Sound k now env s h)
    | inl filling ↦ elim (Bool-cases (leb_ℤ s.buffer_target (pos (length s.buffer_q)))) [
      | inr short ↦
          rw (queue-filling to_local k env now s filling short) (Sound-refl now s s h refl refl)
      | inl full ↦
          rw (queue-filled to_local k env now s filling full)
            (from_filled (process_loop-Sound k now env (record s { buffering = false }) h))
    ]
  ]
    where
      from_filled : {r : Scheduler} → Sound now (record s { buffering = false }) r → Sound now s r
      from_filled a = record {
        heap = a.heap;
        sent = a.sent;
        adds = a.adds;
        in_time = a.in_time;
        counts = a.counts;
      }
