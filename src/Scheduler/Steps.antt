-- ===== src/Scheduler/Steps.antt =====
-- One round of the loop of processQueue (pkg/sendspin/scheduler.go), as equations.
use sendspin_go.Prelude.{ℕ, suc, ◌≡◌, true, false, List, [], ◌∷◌, arith, length}
use sendspin_go.Prelude.Int.{ℤ, pos, leb_ℤ}
use sendspin_go.Audio.{Buffer}
use sendspin_go.Scheduler.{
  Scheduler, Timing, classify, drop_late, take_ready, emit, Call, Send, Ending, accepted, cancelled,
  interfere, process_loop, process_queue,
}

module _ (to_local : ℤ → ℤ) (k : ℕ) (env : List Send) (now : ℤ) (s : Scheduler) where
  pub step-empty : s.buffer_q ≡ [] → process_loop to_local (suc k) env now s ≡ (Ending.finished, s)
  unfolding process_loop
  step-empty e = ground arith

  module _ (b : Buffer) (rest : List Buffer) (e : s.buffer_q ≡ b ∷ rest) where
    pub step-early :
        classify b now ≡ Timing.early
        → process_loop to_local (suc k) env now s ≡ (Ending.finished, s)
    unfolding process_loop
    step-early c = ground arith

    pub step-late :
        classify b now ≡ Timing.late
        → process_loop to_local (suc k) env now s ≡ process_loop to_local k env now (drop_late s)
    unfolding process_loop
    step-late c = ground arith

    pub step-blocked :
        classify b now ≡ Timing.ready
        → env ≡ []
        → process_loop to_local (suc k) env now s ≡ (Ending.blocked b, take_ready s)
    unfolding process_loop
    step-blocked c n = ground arith

    pub step-cancelled :
        (env' : List Send)
        → classify b now ≡ Timing.ready
        → env ≡ cancelled ∷ env'
        → process_loop to_local (suc k) env now s ≡ (Ending.stopped, take_ready s)
    unfolding process_loop
    step-cancelled env' c n = ground arith

    pub step-accepted :
        (calls : List Call) (env' : List Send)
        → classify b now ≡ Timing.ready
        → env ≡ accepted calls ∷ env'
        → process_loop to_local (suc k) env now s
          ≡ process_loop to_local k env' now (interfere to_local calls (emit b (take_ready s)))
    unfolding process_loop
    step-accepted calls env' c n = ground arith

-- How processQueue enters its loop: still filling, just filled up, or already playing.
module _ (to_local : ℤ → ℤ) (k : ℕ) (env : List Send) (now : ℤ) (s : Scheduler) where
  pub queue-running :
      s.buffering ≡ false → process_queue to_local k env now s ≡ process_loop to_local k env now s
  unfolding process_queue
  queue-running e = ground arith

  pub queue-filling :
      s.buffering ≡ true
      → leb_ℤ s.buffer_target (pos (length s.buffer_q)) ≡ false
      → process_queue to_local k env now s ≡ (Ending.filling, s)
  unfolding process_queue
  queue-filling e f = ground arith

  pub queue-filled :
      s.buffering ≡ true
      → leb_ℤ s.buffer_target (pos (length s.buffer_q)) ≡ true
      → process_queue to_local k env now s
        ≡ process_loop to_local k env now (record s { buffering = false })
  unfolding process_queue
  queue-filled e f = ground arith
