-- ===== src/ClientDialer/Tests.antt =====
-- Runs of the dialer of pkg/sendspin/client_dialer.go, and its theorems at them.
use sendspin_go.Prelude.{◌≤◌, ◌≡◌, refl, true, List, [], ◌∷◌, some, none, arith, inr}
use sendspin_go.Prelude.Int.{pos, ◌+ℤ◌, ◌*ℤ◌}
use sendspin_go.Prelude.Int64.{mul64, wrap64}
use sendspin_go.Prelude.Map.{update}
use sendspin_go.ClientDialer.{
  completed, failed, release, backoff_after, Dialing, Event, discovered, ended, run, start,
  new_client_dialer,
}
use sendspin_go.ClientDialer.Backoff.{backoff_after_lem}
use sendspin_go.ClientDialer.Slots.{IsExclusive, at_most_one_dial}

-- Two advertisements of "a", the first dial fails, one comes too early, one in time.
abbrev history : List Event
history =
    discovered "a" (pos 0)
    ∷ discovered "a" (pos 1)
    ∷ ended "a" failed (pos 10)
    ∷ discovered "a" (pos 11)
    ∷ discovered "a" (pos 1_000_000_010)
    ∷ []

abbrev dialing : Dialing
dialing = record {
  dialer = record new_client_dialer { active = update new_client_dialer.active "a" true };
  under_way = update (λ i. 0) "a" 1;
}

abbrev connected : Dialing
connected = record {
  dialer = release dialing.dialer "a" completed (pos 5);
  under_way = update dialing.under_way "a" 0;
}

abbrev after_history : Dialing
unfolding run start
after_history = elim (run start history) [ none ↦ start | some t ↦ t ]

at_most_one_dial_example : after_history.under_way "a" ≤ 1
unfolding run start ◌+ℤ◌ mul64 wrap64 ◌*ℤ◌
at_most_one_dial_example = at_most_one_dial history "a" refl

backoff_after_lem_example :
    backoff_after (pos 1_000_000_000) (pos 30_000_000_000) 40 ≡ pos 30_000_000_000
backoff_after_lem_example = backoff_after_lem 39

dialing-IsExclusive : IsExclusive dialing "a"
unfolding update
dialing-IsExclusive = (omega arith, inr refl)
