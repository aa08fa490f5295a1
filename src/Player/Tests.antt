-- ===== src/Player/Tests.antt =====
-- A player of pkg/sendspin/player.go under concrete calls.
use sendspin_go.Prelude.{
  ℕ, ◌+◌, ◌≡◌, ◌≤◌, refl, true, false, List, [], ◌∷◌, ◌++◌, none, some, arith, length,
}
use sendspin_go.Prelude.Int.{ℤ, pos, negsuc, ◌*ℤ◌, quot_ℤ}
use sendspin_go.Prelude.Int64.{mul64, wrap64, to_u64, of_u64}
use sendspin_go.Output.Malgo.{Malgo, Backend, new_malgo, buffer_samples}
use sendspin_go.Player.{
  first_report, connection_lost, connected, Player, clamp_volume, player_set_volume, set_gain,
  enter_external_source,
}
use sendspin_go.Player.Gain.{InTune}
use sendspin_go.Player.Calls.{Event, connects, sets_volume, mutes, starts, ends, run, run-InTune}
use sendspin_go.Player.Reports.{
  synchronized, last_report, connected-lost, external, player_set_volume-external, set_gain-stale,
}
use sendspin_go.Player.Reconnect.{ReconnectConfig, Attempt, reconnect_with_backoff, ms}
use sendspin_go.Player.Reconnect.Attempts.{Stopped, reconnect_with_backoff-Stopped}

abbrev backend : Backend
backend = record {
  makes_context = true;
  lists = some (record { name = "USB DAC"; is_default = true; id = 0 } ∷ []);
  makes_device = true;
  starts = true;
}

-- The volume changes while the player is muted, and the stream starts afterwards.
abbrev calls : List Event
calls =
    connects
    ∷ starts "pcm" (pos 48000) (pos 2) (pos 24) backend
    ∷ sets_volume (pos 30) true
    ∷ mutes true true
    ∷ sets_volume (pos 80) true
    ∷ mutes false true
    ∷ ends
    ∷ []

cd_size : buffer_samples (pos 48000) (pos 2) ≡ pos 7680
unfolding buffer_samples mul64 wrap64 to_u64 of_u64 ◌*ℤ◌ quot_ℤ
cd_size = refl

abbrev player : Player
player = record {
  audio_device = "";
  state = record {
    state = "idle";
    volume = pos 50;
    muted = false;
    codec = "";
    sample_rate = pos 0;
    channels = pos 0;
    bit_depth = pos 0;
    connected = true;
  };
  output = none;
  connected_once = true;
  sent = [];
  shown = [];
}

run-InTune_example : (q : Player) × (run calls player ≡ some q) × InTune q
run-InTune_example =
    run-InTune calls player (tt, ((7680, cd_size), (tt, (tt, (tt, (tt, (tt, tt))))))) tt

player_set_volume-external_example :
    ((enter_external_source player true).0.sent ≡ [] ++ external ∷ [])
    × ((player_set_volume (enter_external_source player true).0 (pos 20) true).sent
        ≡ (enter_external_source player true).0.sent
          ++ synchronized
              (player_set_volume (enter_external_source player true).0 (pos 20) true).state
            ∷ [])
    × ((player_set_volume (enter_external_source player true).0 (pos 20) true).state.state
        ≡ "external_source")
player_set_volume-external_example = player_set_volume-external player (pos 20) refl refl

connected-lost_example :
    (let changed = player_set_volume player (pos 20) true in
      let q = connected (connection_lost changed) in
      ((last_report first_report changed.sent).volume ≡ clamp_volume (pos 20))
      × (q.state.volume ≡ clamp_volume (pos 20))
      × ((last_report first_report q.sent).volume ≡ pos 100)
      × ((last_report first_report q.sent).muted ≡ false))
connected-lost_example = connected-lost player (pos 20) refl refl refl

abbrev playing : Player
playing = record player { output = some (new_malgo "") }

set_gain-stale_example :
    ((set_gain (player_set_volume playing (pos 20) true) (pos 50) false).state.volume
      ≡ clamp_volume (pos 20))
    × ((o : Malgo) × ((set_gain (player_set_volume playing (pos 20) true) (pos 50) false).output
          ≡ some o)
        × (o.volume ≡ clamp_volume (pos 50)))
set_gain-stale_example = set_gain-stale playing (new_malgo "") (pos 20) true refl refl

abbrev config : ReconnectConfig
config = record {
  initial_delay = ms 500;
  max_delay = ms 30_000;
  max_attempts = pos 2;
  rediscovers = true;
}

-- The first attempt finds another address and fails; the second finds none.
abbrev attempts : List Attempt
attempts =
    record { closed = false; discovered = some "10.0.0.9:8927"; connects = false; random = 3 }
    ∷ record { closed = false; discovered = none; connects = false; random = 3 }
    ∷ []

-- A jitter that adds its random number.
abbrev spread : ℤ → ℕ → ℤ
spread (pos n) k = pos (n + k)
spread (negsuc n) k = negsuc n

abbrev double : ℤ → ℤ
double (pos n) = pos (n + n)
double (negsuc n) = negsuc (n + n + 1)

reconnect_with_backoff-Stopped_example :
    Stopped (reconnect_with_backoff double spread attempts config "10.0.0.2:8927").ending
    × (length (reconnect_with_backoff double spread attempts config "10.0.0.2:8927").tried ≤ 2)
reconnect_with_backoff-Stopped_example =
    reconnect_with_backoff-Stopped double spread config "10.0.0.2:8927" attempts 2 refl
      (omega arith) (omega arith)
