-- ===== src/Player/Reconnect.antt =====
-- reconnectWithBackoff and ensureCapsResolved of pkg/sendspin/player.go. Durations are int64
-- nanoseconds. The products of a duration and a float64 are parameters, and what each
-- attempt meets is a list.
pub mod Attempts
use sendspin_go.Prelude.{
  ℕ, zero, suc, ◌+◌, ◌*◌, Bool, true, false, not, ◌&&◌, ◌||◌, List, [], ◌∷◌, Option, none, some,
  if◌then◌else◌,
}
use sendspin_go.Prelude.Int.{ℤ, pos, ltb_ℤ, leb_ℤ, eqb_ℤ}
use sendspin_go.Prelude.Text.{String, str_eq}

-- `max_attempts` is 0 or less for no limit.
pub record ReconnectConfig : Type 0 where
  pub initial_delay : ℤ
  pub max_delay : ℤ
  pub max_attempts : ℤ
  pub rediscovers : Bool

abbrev pub ms : ℕ → ℤ
ms n = pos (n * 1_000_000)

-- The defaults that NewPlayer fills in.
unfoldable pub with_defaults : ReconnectConfig → ReconnectConfig
with_defaults cfg = record cfg {
  initial_delay = if leb_ℤ cfg.initial_delay (pos 0) then ms 500 else cfg.initial_delay;
  max_delay = if leb_ℤ cfg.max_delay (pos 0) then ms 30_000 else cfg.max_delay;
}

-- What one attempt meets: the player is closed while it waits; Rediscover's answer, none for an
-- error; whether a receiver is built and connects; and the random number of its jitter.
pub record Attempt : Type 0 where
  pub closed : Bool
  pub discovered : Option String
  pub connects : Bool
  pub random : ℕ

pub data Ending : Type 0 where
  reconnected : String → Ending
  gave_up : Ending
  player_closed : Ending
  -- The listed attempts are used up.
  waiting : Ending

-- The waits, the addresses tried, and the end.
pub record Reconnection : Type 0 where
  pub waits : List ℤ
  pub tried : List String
  pub ending : Ending

unfoldable pub after_attempt : ℤ → String → Reconnection → Reconnection
after_attempt wait addr r = record r { waits = wait ∷ r.waits; tried = addr ∷ r.tried }

unfoldable pub address : ReconnectConfig → String → Option String → String
address cfg server_addr discovered = if not cfg.rediscovers then server_addr else elim discovered [
  | none ↦ server_addr
  | some a ↦ if not (str_eq a "") then a else server_addr
]

-- `multiply` is time.Duration(float64(delay) * cfg.Multiplier), and `spread d random` is
-- time.Duration(float64(d) * (1 + delta)) with the delta of the random number.
module _ (multiply : ℤ → ℤ) (spread : ℤ → ℕ → ℤ) where
  unfoldable pub jitter : ℤ → ℕ → ℤ
  jitter d random = if leb_ℤ d (pos 0) then d else spread d random

  unfoldable pub next_delay : ReconnectConfig → ℤ → ℤ
  next_delay cfg delay =
      let delay = multiply delay in if ltb_ℤ cfg.max_delay delay then cfg.max_delay else delay

  unfoldable pub exhausted : ReconnectConfig → ℕ → Bool
  exhausted cfg attempt = ltb_ℤ (pos 0) cfg.max_attempts && ltb_ℤ cfg.max_attempts (pos attempt)

  -- The loop, `attempt` the number of attempts so far.
  unfoldable pub reconnect_loop : List Attempt → ReconnectConfig → String → ℕ → ℤ → Reconnection
  unfolding next_delay exhausted address after_attempt jitter
  reconnect_loop [] cfg server_addr attempt delay = record {
    waits = [];
    tried = [];
    ending = if exhausted cfg (suc attempt) then gave_up else waiting;
  }
  reconnect_loop (a ∷ attempts) cfg server_addr attempt delay = elim (exhausted cfg (suc attempt)) [
    | true ↦ record { waits = []; tried = []; ending = gave_up }
    | false ↦ elim a.closed [
      | true ↦ record { waits = jitter delay a.random ∷ []; tried = []; ending = player_closed }
      | false ↦
          let addr = address cfg server_addr a.discovered in
          elim a.connects [
            | true ↦ record {
              waits = jitter delay a.random ∷ [];
              tried = addr ∷ [];
              ending = reconnected addr;
            }
            | false ↦
                after_attempt (jitter delay a.random) addr
                  (reconnect_loop attempts cfg server_addr (suc attempt) (next_delay cfg delay))
          ]
    ]
  ]

  unfoldable pub reconnect_with_backoff : List Attempt → ReconnectConfig → String → Reconnection
  unfolding reconnect_loop
  reconnect_with_backoff attempts cfg server_addr =
      reconnect_loop attempts cfg server_addr 0 cfg.initial_delay

-- The caps of a player: its config's, or the device's. The probe answers the highest rate and depth,
-- none where it fails.
pub record CapsConfig : Type 0 where
  pub max_sample_rate : ℤ
  pub max_bit_depth : ℤ
  pub has_output : Bool
  pub caps_resolved : Bool

unfoldable pub ensure_caps_resolved : CapsConfig → Option (ℤ × ℤ) → CapsConfig
ensure_caps_resolved c probe =
    if c.caps_resolved
    then c
    else if not (eqb_ℤ c.max_sample_rate (pos 0)) || not (eqb_ℤ c.max_bit_depth (pos 0))
    then record c { caps_resolved = true }
    else if c.has_output
    then record c { caps_resolved = true }
    else elim probe [
      | none ↦ record c { caps_resolved = true }
      | some found ↦
          if eqb_ℤ found.0 (pos 0) && eqb_ℤ found.1 (pos 0)
          then record c { caps_resolved = true }
          else record c { max_sample_rate = found.0; max_bit_depth = found.1; caps_resolved = true }
    ]
