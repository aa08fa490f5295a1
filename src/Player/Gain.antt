-- ===== src/Player/Gain.antt =====
-- The gain of the output and the volume that a player of pkg/sendspin/player.go shows.
use mathlib.Core.Path.{subst}
use sendspin_go.Prelude.{
  ◌≡◌, refl, sym, ap, ◌∙◌, inl, inr, Bool, true, false, not, none, some, arith, Bool-cases,
  Option-cases, if◌then◌else◌,
}
use sendspin_go.Prelude.Int.{ℤ}
use sendspin_go.Output.Malgo.{Malgo, close, set_volume, set_muted}
use sendspin_go.Output.Malgo.Lifetime.{
  IsConsistent, set_volume-IsConsistent, close-IsConsistent, close-ready,
}
use sendspin_go.Player.{
  PlayerState, Player, notify_state_change, send_state, on_output, report, clamp_volume,
  player_set_volume, mute, close_player,
}

-- An output that plays has the player's mute, and, unless muted, the player's volume.
pub record Agrees (o : Malgo) (s : PlayerState) : Type 0 where
  pub consistent : IsConsistent o
  pub mute : o.ready ≡ true → o.muted ≡ s.muted
  pub gain : o.ready ≡ true → s.muted ≡ false → o.volume ≡ clamp_volume s.volume

abbrev pub InTune : Player → Type 0
InTune p = elim p.output [ none ↦ Unit | some o ↦ Agrees o p.state ]

-- The methods that leave the output, the volume and the mute as they are.
pub record Kept (p q : Player) : Type 0 where
  pub output : q.output ≡ p.output
  pub volume : q.state.volume ≡ p.state.volume
  pub muted : q.state.muted ≡ p.state.muted

pub Kept-InTune : (p q : Player) → Kept p q → InTune p → InTune q
Kept-InTune p q k t = elim (Option-cases p.output) [
  | inl e ↦ rw (k.output, e) tt
  | inr (o, e) ↦
      let a : Agrees o p.state = rw e at t in
      rw (k.output, e)
        (record {
          consistent = a.consistent;
          mute = λ r. a.mute r ∙ sym k.muted;
          gain = λ r m. a.gain r (sym k.muted ∙ m) ∙ ap clamp_volume (sym k.volume);
        })
]

clamp_volume_twice : (v : ℤ) → clamp_volume (clamp_volume v) ≡ clamp_volume v
unfolding clamp_volume
clamp_volume_twice v = ground arith

volume-set_volume : (o : Malgo) (v : ℤ) → (set_volume o v).volume ≡ clamp_volume v
unfolding set_volume clamp_volume
volume-set_volume o v = ground arith

set_muted-IsConsistent : (o : Malgo) (m : Bool) → IsConsistent o → IsConsistent (set_muted o m)
unfolding set_muted
set_muted-IsConsistent o m c = record {
  both = c.both;
  depth = c.depth;
  ring = c.ring;
  above = c.above;
  below = c.below;
}

-- The output after both settings.
pub Agrees-set :
    (o : Malgo) (s : PlayerState)
    → IsConsistent o
    → Agrees (set_muted (set_volume o s.volume) s.muted) s
unfolding set_muted
Agrees-set o s c = record {
  consistent =
      set_muted-IsConsistent (set_volume o s.volume) s.muted (set_volume-IsConsistent o s.volume c);
  mute = λ r. refl;
  gain = λ r m. volume-set_volume o s.volume;
}

Kept-report : (p : Player) (delivers : Bool) → Kept p (report p delivers)
unfolding report send_state
Kept-report p delivers = record {
  output = ground arith;
  volume = ground arith;
  muted = ground arith;
}

pub Kept-notify : (p : Player) → Kept p (notify_state_change p)
unfolding notify_state_change
Kept-notify p = record { output = refl; volume = refl; muted = refl }

-- The last lines of SetVolume and Mute.
InTune-told :
    (p : Player) (delivers : Bool) → InTune p → InTune (notify_state_change (report p delivers))
InTune-told p delivers t =
    Kept-InTune (report p delivers) _ (Kept-notify (report p delivers))
      (Kept-InTune p (report p delivers) (Kept-report p delivers) t)

InTune-on_output :
    (p : Player) (f : Malgo → Malgo)
    → ((o : Malgo) → p.output ≡ some o → Agrees (f o) p.state)
    → InTune (on_output p f)
unfolding on_output
InTune-on_output p f h = elim (Option-cases p.output) [
  | inl e ↦ subst InTune (sym (on_output-none p f e)) (rw e tt)
  | inr (o, e) ↦ subst InTune (sym (on_output-some p f o e)) (h o e)
]
  where
    on_output-none : (p : Player) (f : Malgo → Malgo) → p.output ≡ none → on_output p f ≡ p
    on_output-none p f e = ground (arith, e)

    on_output-some :
        (p : Player) (f : Malgo → Malgo) (o : Malgo)
        → p.output ≡ some o
        → on_output p f ≡ record p { output = some (f o) }
    on_output-some p f o e = ground (arith, e)

pub InTune-output : (p : Player) (o : Malgo) → InTune p → p.output ≡ some o → Agrees o p.state
InTune-output p o t e = rw e at t

-- The player with the volume and, if it has one, the gain of its output set.
louder : Player → ℤ → Player
louder p v =
    on_output (record p { state = record p.state { volume = clamp_volume v } })
      (λ o. set_volume o (clamp_volume v))

ready-set_volume :
    (o : Malgo) (v : ℤ) → ((set_volume o v).ready ≡ o.ready) × ((set_volume o v).muted ≡ o.muted)
unfolding set_volume
ready-set_volume o v = (refl, refl)

louder-InTune : (p : Player) (v : ℤ) → InTune p → InTune (louder p v)
unfolding louder
louder-InTune p v t =
    let c = clamp_volume v in
    InTune-on_output (record p { state = record p.state { volume = c } }) (λ o. set_volume o c)
      λ o e.
        let a = InTune-output p o t e in
        let (r, m) = ready-set_volume o c in
        record {
          consistent = set_volume-IsConsistent o c a.consistent;
          mute = λ h. m ∙ a.mute (sym r ∙ h);
          gain = λ h k. volume-set_volume o c;
        }

player_set_volume_lem :
    (p : Player) (v : ℤ) (delivers : Bool)
    → player_set_volume p v delivers
      ≡ notify_state_change (report (if p.state.muted then p else louder p v) delivers)
unfolding player_set_volume louder
player_set_volume_lem p v delivers = ground arith

pub player_set_volume-InTune :
    (p : Player) (v : ℤ) (delivers : Bool) → InTune p → InTune (player_set_volume p v delivers)
player_set_volume-InTune p v delivers t = subst InTune (sym (player_set_volume_lem p v delivers)) (
    InTune-told (if p.state.muted then p else louder p v) delivers
      (elim (Bool-cases p.state.muted) [
        | inl m ↦ subst (λ b. InTune (if b then p else louder p v)) (sym m) t
        | inr m ↦ subst (λ b. InTune (if b then p else louder p v)) (sym m) (louder-InTune p v t)
      ]))

muting : Player → Bool → Player
muting p m =
    on_output (record p { state = record p.state { muted = m } })
      (λ o. if not m then set_volume (set_muted o m) p.state.volume else set_muted o m)

ready-set_muted :
    (o : Malgo) (m : Bool) → ((set_muted o m).ready ≡ o.ready) × ((set_muted o m).muted ≡ m)
unfolding set_muted
ready-set_muted o m = (refl, refl)

muting-InTune : (p : Player) (m : Bool) → InTune p → InTune (muting p m)
unfolding muting
muting-InTune p true t =
    InTune-on_output _ (λ o. set_muted o true)
      λ o e.
        let a = InTune-output p o t e in
        record {
          consistent = set_muted-IsConsistent o true a.consistent;
          mute = λ h. (ready-set_muted o true).1;
          gain = λ h k. ground (arith, k);
        }
muting-InTune p false t =
    InTune-on_output _ (λ o. set_volume (set_muted o false) p.state.volume)
      λ o e.
        let a = InTune-output p o t e in
        let q = set_muted o false in
        let v = p.state.volume in
        record {
          consistent = set_volume-IsConsistent q v (set_muted-IsConsistent o false a.consistent);
          mute = λ h. (ready-set_volume q v).1 ∙ (ready-set_muted o false).1;
          gain = λ h k. volume-set_volume q v;
        }

mute_lem :
    (p : Player) (m delivers : Bool)
    → mute p m delivers ≡ notify_state_change (report (muting p m) delivers)
unfolding mute muting
mute_lem p m delivers = refl

pub mute-InTune : (p : Player) (m delivers : Bool) → InTune p → InTune (mute p m delivers)
mute-InTune p m delivers t =
    subst InTune (sym (mute_lem p m delivers))
      (InTune-told (muting p m) delivers (muting-InTune p m t))

closed : Player → Player
closed p = record p { state = record p.state { connected = false; state = "idle" } }

close_player_lem : (p : Player) → close_player p ≡ notify_state_change (on_output (closed p) close)
unfolding close_player on_output closed
close_player_lem p = ground arith

pub close_player-InTune : (p : Player) → InTune p → InTune (close_player p)
unfolding closed
close_player-InTune p t =
    let q = on_output (closed p) close in
    subst InTune (sym (close_player_lem p)) (
      Kept-InTune q _ (Kept-notify q) (
        InTune-on_output (closed p) close λ o e.
          let a = InTune-output p o t e in
          let off = close-ready o a.consistent in
          record {
            consistent = close-IsConsistent o a.consistent;
            mute = λ h. absurd (ground (arith, h, off));
            gain = λ h k. absurd (ground (arith, h, off));
          }))
