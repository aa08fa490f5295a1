-- ===== src/ClientDialer.antt =====
-- pkg/sendspin/client_dialer.go: the slots by which the server dials each discovered client at most
-- once at a time, with an exponential backoff after failures. Times and durations are nanoseconds;
-- the failure counter is a plain number.
pub mod Backoff
pub mod Slots
mod Tests
use sendspin_go.Prelude.{
  ℕ, zero, suc, ◌+◌, ◌-◌, ◌^◌, Bool, true, false, ◌||◌, List, [], ◌∷◌, Option, none, some,
  if◌then◌else◌, ltb,
}
use sendspin_go.Prelude.Int.{ℤ, pos, ◌+ℤ◌, ltb_ℤ, leb_ℤ}
use sendspin_go.Prelude.Int64.{wrap64, mul64}
use sendspin_go.Prelude.Map.{update}
use sendspin_go.Prelude.Text.{String}

abbrev pub second : ℕ
second = 1_000_000_000

-- `active` reads false at a missing key, `failures` 0.
pub record ClientDialer : Type 0 where
  pub base_backoff : ℤ
  pub max_backoff : ℤ
  pub active : String → Bool
  pub cooldown : String → Option ℤ
  pub failures : String → ℕ

pub new_client_dialer : ClientDialer
new_client_dialer = record {
  base_backoff = pos 1_000_000_000;
  max_backoff = pos 30_000_000_000;
  active = λ i. false;
  cooldown = λ i. none;
  failures = λ i. 0;
}

-- Whether a cooldown forbids a dial at `now`.
pub cooling : Option ℤ → ℤ → Bool
cooling none now = false
cooling (some until) now = ltb_ℤ now until

pub claim : ClientDialer → String → ℤ → Bool × ClientDialer
unfolding cooling update
claim d instance_name now =
    if d.active instance_name
    then (false, d)
    else if cooling (d.cooldown instance_name) now
    then (false, d)
    else (true, record d { active = update d.active instance_name true })

-- What a dial reports to release: nil, errRetryRequested, or another error.
pub data DialResult : Type 0 where
  completed retry_requested failed : DialResult

-- The cooldown after the `n`-th failure in a row; `1 << k` is an int64, 0 for a count past its width.
pub backoff_after : ℤ → ℤ → ℕ → ℤ
backoff_after base max n =
    let backoff = mul64 base (wrap64 (pos (2 ^ (n - 1)))) in
    if ltb_ℤ max backoff || leb_ℤ backoff (pos 0) then max else backoff

pub release : ClientDialer → String → DialResult → ℤ → ClientDialer
unfolding update backoff_after
release d instance_name completed now = record d {
  failures = update d.failures instance_name 0;
  cooldown = update d.cooldown instance_name none;
}
release d instance_name retry_requested now = record d {
  active = update d.active instance_name false;
  failures = update d.failures instance_name 0;
  cooldown = update d.cooldown instance_name none;
}
release d instance_name failed now =
    let n = suc (d.failures instance_name) in
    record d {
      active = update d.active instance_name false;
      failures = update d.failures instance_name n;
      cooldown =
          update d.cooldown instance_name
            (some (now +ℤ backoff_after d.base_backoff d.max_backoff n));
    }

-- The run loop with its dial goroutines: how many are under way for each instance.
pub record Dialing : Type 0 where
  pub dialer : ClientDialer
  pub under_way : String → ℕ

-- A client is discovered, or one of the dials under way ends.
pub data Event : Type 0 where
  discovered : String → ℤ → Event
  ended : String → DialResult → ℤ → Event

-- A dial that is not under way cannot end.
pub step : Dialing → Event → Option Dialing
unfolding claim release
step s (discovered i now) =
    let (claimed, d) = claim s.dialer i now in
    if claimed
    then some (record { dialer = d; under_way = update s.under_way i (s.under_way i + 1) })
    else some s
step s (ended i result now) =
    if ltb 0 (s.under_way i)
    then some (record {
      dialer = release s.dialer i result now;
      under_way = update s.under_way i (s.under_way i - 1);
    })
    else none

pub run : Dialing → List Event → Option Dialing
unfolding step
run s [] = some s
run s (e ∷ es) = elim (step s e) [ none ↦ none | some s' ↦ run s' es ]

pub start : Dialing
unfolding new_client_dialer
start = record { dialer = new_client_dialer; under_way = λ i. 0 }
