-- ===== src/Group/Tests.antt =====
-- Histories of a group of pkg/sendspin/group.go, and its theorems at them.
use sendspin_go.Prelude.{◌≡◌, refl, false, List, [], ◌∷◌, some}
use sendspin_go.Prelude.Int.{pos}
use sendspin_go.Group.{
  Client, client_state_changed, Group, new_group, Op, subscribes, closes, unsubscribes, receives,
  publishes, adds, removes, sets_playback_state, run,
}
use sendspin_go.Group.Invariant.{IsValid}
use sendspin_go.Group.Steps.{IsValid-same, new_group-IsValid, run-new_group}
use sendspin_go.Group.Membership.{replay, UniqueIds, replay-published}

abbrev old : Client
old = record { pointer = 1; id = "kitchen"; name = "Kitchen" }

-- The same device on a new connection.
abbrev new : Client
new = record { pointer = 2; id = "kitchen"; name = "Kitchen" }

abbrev regular_history : List Op
regular_history =
    subscribes
    ∷ adds old
    ∷ sets_playback_state "paused"
    ∷ receives 0
    ∷ publishes (client_state_changed old "playing" (pos 50) false)
    ∷ removes old
    ∷ unsubscribes 0
    ∷ unsubscribes 0
    ∷ adds new
    ∷ []

abbrev history : List Op
history = subscribes ∷ adds old ∷ closes ∷ subscribes ∷ closes ∷ unsubscribes 0 ∷ removes old ∷ []

abbrev with_old : Group
with_old = record (new_group "g") { clients = old ∷ [] }

with_old-IsValid : IsValid with_old
unfolding new_group
with_old-IsValid = IsValid-same (new_group "g") with_old refl refl refl refl (new_group-IsValid "g")

run-new_group_example : (g : Group) × (run (new_group "g") history ≡ some g) × IsValid g
run-new_group_example = run-new_group "g" history

replay-published_example :
    (g : Group) × (run (new_group "g") regular_history ≡ some g)
    × (replay [] g.published ≡ g.clients)
    × UniqueIds g.clients
replay-published_example =
    replay-published "g" regular_history (tt, (tt, (tt, (tt, (tt, (tt, (tt, (tt, (tt, tt)))))))))
