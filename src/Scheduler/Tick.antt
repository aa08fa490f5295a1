-- ===== src/Scheduler/Tick.antt =====
-- One undisturbed tick of processQueue (pkg/sendspin/scheduler.go): the channel takes every buffer
-- and no other goroutine calls in between.
use mathlib.Core.List.{
  Perm, Mem, append-nil, append_assoc, not-mem-nil, perm_middle, mem-cons_of_mem, mem-cons_self,
}
use mathlib.Core.List.Perm
use mathlib.Core.Path.{subst}
use sendspin_go.Prelude.{
  ℕ, zero, suc, ◌+◌, ◌≤◌, ◌<◌, ◌≡◌, refl, sym, ◌∙◌, false, List, [], ◌∷◌, ◌++◌, inl, inr, arith,
  length, All, replicate, List-cases,
}
use sendspin_go.Prelude.Int.{ℤ, ◌≤ℤ◌}
use sendspin_go.Audio.{Buffer}
use sendspin_go.BufferQueue.{pop}
use sendspin_go.BufferQueue.Order.{IsHeap}
use sendspin_go.BufferQueue.PushPop.{Popped, pop-Popped}
use sendspin_go.Scheduler.{
  Scheduler, Timing, classify, drop_late, take_ready, emit, Send, Ending, accepted, interfere,
  process_loop, process_queue,
}
use sendspin_go.Scheduler.Steps.{step-empty, step-early, step-late, step-accepted, queue-running}
use sendspin_go.Scheduler.Window.{IsEarly, IsLate, IsReady, classify_lem}

-- In order of play time, none before `t`.
abbrev pub Ordered : ℤ → List Buffer → Type 0
Ordered t [] = Unit {0}
Ordered t (b ∷ bs) = (t ≤ℤ b.play_at) × Ordered b.play_at bs

abbrev pub quiet : ℕ → List Send
quiet n = replicate n (accepted [])

-- What the tick at `now` did to the scheduler `s`, which it leaves as `r`.
pub record Ticked (now : ℤ) (s r : Scheduler) : Type 0 where
  pub sent : List Buffer
  pub late : List Buffer
  pub conserved : Perm s.buffer_q (late ++ sent ++ r.buffer_q)
  pub adds : r.output ≡ s.output ++ sent
  pub in_time : All (IsReady now) sent
  pub too_late : All (IsLate now) late
  pub waiting : (c : Buffer) → Mem c r.buffer_q → IsEarly now c
  pub ordered : (t : ℤ) → ((c : Buffer) → Mem c s.buffer_q → t ≤ℤ c.play_at) → Ordered t sent
  pub heap : IsHeap r.buffer_q
  pub played : r.played ≡ s.played + length sent
  pub dropped : r.dropped ≡ s.dropped + length late
  pub received : r.received ≡ s.received

still-Ticked :
    (now : ℤ) (s : Scheduler)
    → IsHeap s.buffer_q
    → ((c : Buffer) → Mem c s.buffer_q → IsEarly now c)
    → Ticked now s s
still-Ticked now s h w = record {
  sent = [];
  late = [];
  conserved = Perm.refl s.buffer_q;
  adds = sym (append-nil s.output);
  in_time = tt;
  too_late = tt;
  waiting = w;
  ordered = λ t o. tt;
  heap = h;
  played = omega arith;
  dropped = omega arith;
  received = refl;
}

module _ (now : ℤ) (s : Scheduler) (b : Buffer) (rest : List Buffer) (h : IsHeap s.buffer_q)
    (e : s.buffer_q ≡ b ∷ rest) where
  first : Popped b s.buffer_q (pop s.buffer_q).1
  first = pop-Popped b rest s.buffer_q e h

  held : (c : Buffer) → Mem c (b ∷ (pop s.buffer_q).1) → Mem c s.buffer_q
  held c = (Perm.mem_iff first.perm).1

  late-Ticked : {r : Scheduler} → IsLate now b → Ticked now (drop_late s) r → Ticked now s r
  unfolding drop_late
  late-Ticked l t = record {
    sent = t.sent;
    late = b ∷ t.late;
    conserved = Perm.trans first.perm (Perm.cons b t.conserved);
    adds = t.adds;
    in_time = t.in_time;
    too_late = (l, t.too_late);
    waiting = t.waiting;
    ordered = λ u o. t.ordered u λ c m. o c (held c (mem-cons_of_mem b m));
    heap = t.heap;
    played = t.played;
    dropped = omega (arith, t.dropped);
    received = t.received;
  }

  ready-Ticked :
      {r : Scheduler} → IsReady now b → Ticked now (emit b (take_ready s)) r → Ticked now s r
  unfolding take_ready emit
  ready-Ticked {r} l t = record {
    sent = b ∷ t.sent;
    late = t.late;
    conserved = Perm.trans first.perm (
        Perm.trans (Perm.cons b t.conserved)
          (Perm.append (Perm.symm (perm_middle t.late t.sent)) (Perm.refl r.buffer_q)));
    adds = t.adds ∙ append_assoc s.output (b ∷ []) t.sent;
    in_time = (l, t.in_time);
    too_late = t.too_late;
    waiting = t.waiting;
    ordered = λ u o. (
      o b (held b mem-cons_self),
      t.ordered b.play_at λ c m. first.least c (held c (mem-cons_of_mem b m)),
    );
    heap = t.heap;
    played = omega (arith, t.played);
    dropped = t.dropped;
    received = t.received;
  }

-- The first buffer of the heap is early, so all are.
IsEarly-waiting :
    (now : ℤ) (s : Scheduler) (b : Buffer) (rest : List Buffer)
    → IsHeap s.buffer_q
    → s.buffer_q ≡ b ∷ rest
    → IsEarly now b
    → (c : Buffer) → Mem c s.buffer_q
    → IsEarly now c
IsEarly-waiting now s b rest h e early c m =
    omega (arith, early, (first now s b rest h e).least c m)

module _ (to_local : ℤ → ℤ) where
  Quiet : ℕ → ℕ → ℤ → Scheduler → Type 0
  Quiet k n now s =
      ((process_loop to_local k (quiet n) now s).0 ≡ Ending.finished)
      × Ticked now s (process_loop to_local k (quiet n) now s).1

  Quiet-round :
      (k n : ℕ) (now : ℤ) (s : Scheduler) (b : Buffer) (rest : List Buffer)
      → ((m : ℕ) (t : Scheduler)
          → IsHeap t.buffer_q
          → length t.buffer_q < k
          → length t.buffer_q ≤ m
          → Quiet k m now t)
      → IsHeap s.buffer_q
      → s.buffer_q ≡ b ∷ rest
      → length s.buffer_q < suc k
      → length s.buffer_q ≤ n
      → (timing : Timing) → classify b now ≡ timing
      → Quiet (suc k) n now s
  unfolding Quiet drop_late take_ready emit interfere
  Quiet-round k n now s b rest later h e fuel room Timing.early c =
      rw (step-early to_local k (quiet n) now s b rest e c)
        (refl, still-Ticked now s h (IsEarly-waiting now s b rest h e ((classify_lem b now).0.0 c)))
  Quiet-round k n now s b rest later h e fuel room Timing.late c =
      let f = first now s b rest h e in
      let (ends, t) =
        later n (drop_late s) f.heap (omega (arith, f.size)) (omega (arith, f.size)) in
      rw (step-late to_local k (quiet n) now s b rest e c)
        (ends, late-Ticked now s b rest h e ((classify_lem b now).1.0 c) t)
  Quiet-round k zero now s b rest later h e fuel room Timing.ready c =
      absurd (omega (arith, (first now s b rest h e).size))
  Quiet-round k (suc n) now s b rest later h e fuel room Timing.ready c =
      let f = first now s b rest h e in
      let s' = emit b (take_ready s) in
      let (ends, t) = later n s' f.heap (omega (arith, f.size)) (omega (arith, f.size)) in
      rw (step-accepted to_local k (quiet (suc n)) now s b rest e [] (quiet n) c refl)
        (ends, ready-Ticked now s b rest h e ((classify_lem b now).2.0 c) t)

  Quiet-loop :
      (k : ℕ) (now : ℤ) (n : ℕ) (s : Scheduler)
      → IsHeap s.buffer_q
      → length s.buffer_q < k
      → length s.buffer_q ≤ n
      → Quiet k n now s
  unfolding Quiet
  Quiet-loop zero now n s h fuel room = absurd (omega arith)
  Quiet-loop (suc k) now n s h fuel room = elim (List-cases s.buffer_q) [
    | inl none_left ↦
        rw (step-empty to_local k (quiet n) now s none_left)
          (refl, still-Ticked now s h λ c m. absurd (not-mem-nil (subst (Mem c) none_left m)))
    | inr (b, rest, some_left) ↦
        Quiet-round k n now s b rest (Quiet-loop k now) h some_left fuel room (classify b now) refl
  ]

  -- A tick of a playing scheduler whose every send is taken, with nobody interfering, and with
  -- rounds and sends enough for its queue, ends at its end. The buffers that were queued are those
  -- dropped, those sent and those left, with none lost or made up; it drops only buffers more than
  -- 50 ms late, sends only buffers within 50 ms of their time, in order of play time and after
  -- what was sent before, and leaves only buffers more than 50 ms early. The counters count the
  -- buffers sent and dropped.
  pub quiet_tick :
      (k n : ℕ) (now : ℤ) (s : Scheduler)
      → s.buffering ≡ false
      → IsHeap s.buffer_q
      → length s.buffer_q < k
      → length s.buffer_q ≤ n
      → ((process_queue to_local k (quiet n) now s).0 ≡ Ending.finished)
        × Ticked now s (process_queue to_local k (quiet n) now s).1
  unfolding Quiet
  quiet_tick k n now s playing h fuel room =
      rw (queue-running to_local k (quiet n) now s playing) (Quiet-loop k now n s h fuel room)
