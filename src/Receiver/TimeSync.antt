-- ===== src/Receiver/TimeSync.antt =====
-- runTimeSyncBurst of pkg/sendspin/receiver.go: several time requests, of which the one with the
-- shortest round trip feeds the clock filter. Times are int64 µs. What each request meets is a
-- list.
pub mod Shortest
use sendspin_go.Prelude.{
  ℕ, zero, suc, Bool, true, false, List, [], ◌∷◌, Option, none, some, ◌==◌, if◌then◌else◌,
}
use sendspin_go.Prelude.Int.{ℤ, pos, ltb_ℤ}
use sendspin_go.Prelude.Int64.{sub64, max_int64}

-- The four times of one exchange, t4 read from the local clock.
pub record Sample : Type 0 where
  pub client_transmitted : ℤ
  pub server_received : ℤ
  pub server_transmitted : ℤ
  pub t4 : ℤ

-- What the call of ProcessSyncResponse gets when no sample has set the variables.
abbrev pub zero_sample : Sample
zero_sample = record {
  client_transmitted = pos 0;
  server_received = pos 0;
  server_transmitted = pos 0;
  t4 = pos 0;
}

pub data Reply : Type 0 where
  send_failed : Reply
  responds : Sample → Reply
  timed_out : Reply
  cancelled : Reply

unfoldable pub rtt : Sample → ℤ
rtt s = sub64 (sub64 s.t4 s.client_transmitted) (sub64 s.server_transmitted s.server_received)

pub record Best : Type 0 where
  pub sample : Sample
  pub best_rtt : ℤ
  pub valid : ℕ

-- One response.
unfoldable pub consider : Best → Sample → Best
unfolding rtt
consider b s =
    if ltb_ℤ (rtt s) b.best_rtt
    then record { sample = s; best_rtt = rtt s; valid = suc b.valid }
    else record b { valid = suc b.valid }

-- The loop; none where the receiver is closed.
unfoldable pub burst_loop : List Reply → Best → Option Best
unfolding consider
burst_loop [] b = some b
burst_loop (send_failed ∷ replies) b = burst_loop replies b
burst_loop (responds s ∷ replies) b = burst_loop replies (consider b s)
burst_loop (timed_out ∷ replies) b = burst_loop replies b
burst_loop (cancelled ∷ replies) b = none

-- The sample that ProcessSyncResponse is called with, if it is.
unfoldable pub run_time_sync_burst : List Reply → Option Sample
unfolding burst_loop
run_time_sync_burst replies =
    elim (burst_loop replies (record { sample = zero_sample; best_rtt = max_int64; valid = 0 })) [
      | none ↦ none
      | some b ↦ if b.valid == 0 then none else some b.sample
    ]
