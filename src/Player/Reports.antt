-- ===== src/Player/Reports.antt =====
-- What a player of pkg/sendspin/player.go reports to the server, and the race of its callbacks.
use sendspin_go.Prelude.{List, refl, ◌≡◌, ap, ◌∙◌, Bool, true, false, [], ◌∷◌, ◌++◌, some, arith}
use sendspin_go.Prelude.Int.{ℤ, pos}
use sendspin_go.Output.Malgo.{Malgo, set_volume, set_muted}
use sendspin_go.Player.{
  PlayerState, Report, Player, first_report, connected, connection_lost, notify_state_change,
  send_state, in_state, on_output, report, clamp_volume, player_set_volume, mute, set_gain,
  enter_external_source,
}

abbrev pub synchronized : PlayerState → Report
synchronized s = record { state = "synchronized"; volume = s.volume; muted = s.muted }

abbrev pub last_report : Report → List Report → Report
last_report r [] = r
last_report r (x ∷ xs) = last_report x xs

last_report-append : (r x : Report) (xs : List Report) → last_report r (xs ++ x ∷ []) ≡ x
last_report-append r x [] = refl
last_report-append r x (y ∷ xs) = last_report-append y x xs

-- A connected player tells the server its volume and mute after every change of either: the last
-- report that the server has been sent is then the player's state, whatever was asked for and
-- whether or not the change took effect.
pub changes-synchronized :
    (p : Player) (v : ℤ) (m : Bool)
    → p.connected_once ≡ true
    → p.state.connected ≡ true
    → ((player_set_volume p v true).sent
        ≡ p.sent ++ synchronized (player_set_volume p v true).state ∷ [])
      × ((mute p m true).sent ≡ p.sent ++ synchronized (mute p m true).state ∷ [])
      × ((mute p m true).state.muted ≡ m)
unfolding player_set_volume mute on_output report send_state notify_state_change
changes-synchronized p v m once now =
    (ground (arith, once, now), ground (arith, once, now), ground (arith, once, now))

-- A connected player whose volume is changed reports the new volume. It then loses its connection
-- and reconnects: it keeps that volume, but the last report that the server has been sent says 100,
-- not muted.
pub connected-lost :
    (p : Player) (v : ℤ)
    → p.connected_once ≡ true
    → p.state.connected ≡ true
    → p.state.muted ≡ false
    → (let changed = player_set_volume p v true in
        let q = connected (connection_lost changed) in
        ((last_report first_report changed.sent).volume ≡ clamp_volume v)
        × (q.state.volume ≡ clamp_volume v)
        × ((last_report first_report q.sent).volume ≡ pos 100)
        × ((last_report first_report q.sent).muted ≡ false))
unfolding connected connection_lost player_set_volume on_output report send_state
    notify_state_change
connected-lost p v once now loud =
    let lost = connection_lost (player_set_volume p v true) in
    let last = last_report-append first_report first_report lost.sent in
    (
      ap (λ r. r.volume)
            (ap (last_report first_report) (changes-synchronized p v false once now).0
              ∙ last_report-append first_report _ p.sent)
          ∙ ground (arith, loud),
      ground (arith, loud),
      ap (λ r. r.volume) last,
      ap (λ r. r.muted) last,
    )

abbrev pub external : Report
external = record { state = "external_source"; volume = pos 0; muted = false }

-- While a player is in external-source mode, a change of its volume makes it report "synchronized",
-- with which a server takes it back into its group, although it goes on showing "external_source"
-- and ExitExternalSource has not been called.
pub player_set_volume-external :
    (p : Player) (v : ℤ)
    → p.connected_once ≡ true
    → p.state.connected ≡ true
    → (let e = (enter_external_source p true).0 in
        let q = player_set_volume e v true in
        (e.sent ≡ p.sent ++ external ∷ [])
        × (q.sent ≡ e.sent ++ synchronized q.state ∷ [])
        × (q.state.state ≡ "external_source"))
unfolding enter_external_source player_set_volume in_state on_output report send_state
    notify_state_change
player_set_volume-external p v once now =
    (ground (arith, once, now), ground (arith, once, now), ground (arith, once, now))

-- A volume change between the moment at which onStreamStart reads the volume and the one at which
-- it sets the output's gain is lost on the output: the player shows the new volume, and the output
-- has the gain of the old one until the next change.
pub set_gain-stale :
    (p : Player) (o : Malgo) (v : ℤ) (delivers : Bool)
    → p.output ≡ some o
    → p.state.muted ≡ false
    → (let q = set_gain (player_set_volume p v delivers) p.state.volume p.state.muted in
        (q.state.volume ≡ clamp_volume v)
        × ((o' : Malgo) × (q.output ≡ some o') × (o'.volume ≡ clamp_volume p.state.volume)))
unfolding set_gain player_set_volume on_output report send_state notify_state_change set_volume
    set_muted clamp_volume
set_gain-stale p o v delivers has loud = (
  ground (arith, has, loud),
  (
    set_muted (set_volume (set_volume o (clamp_volume v)) p.state.volume) p.state.muted,
    ground (arith, has, loud),
    ground arith,
  ),
)
