-- ===== src/Player/Calls.antt =====
-- Every sequence of calls of a player of pkg/sendspin/player.go: streams that start, volume, mute,
-- connection and closing.
use mathlib.Core.Path.{subst}
use sendspin_go.Prelude.{
  ◌≡◌, refl, sym, ap, ◌∙◌, inl, inr, Bool, false, List, [], ◌∷◌, Option, none, some, arith, All,
  Option-cases, ℕ,
}
use sendspin_go.Prelude.Int.{ℤ, pos}
use sendspin_go.Prelude.Text.{String}
use sendspin_go.Output.Malgo.{Malgo, OpenError, Backend, new_malgo, buffer_samples, open_device}
use sendspin_go.Output.Malgo.Lifetime.{
  IsConsistent, Opened, is_closed, new_malgo-IsConsistent, open_device-Opened,
}
use sendspin_go.Player.{
  PlayerState, Player, notify_state_change, send_state, in_state, connected, connection_lost,
  on_output, player_set_volume, mute, make_output, stream_state, set_gain, on_stream_start,
  on_stream_end, set_playback, enter_external_source, exit_external_source, close_player,
}
use sendspin_go.Player.Gain.{
  Agrees, InTune, Kept, Kept-InTune, Agrees-set, InTune-output, player_set_volume-InTune,
  mute-InTune, close_player-InTune,
}

-- A format whose ring has a size.
abbrev pub Fits : ℤ → ℤ → Type 0
Fits sample_rate channels = (n : ℕ) × (buffer_samples sample_rate channels ≡ pos n)

-- Where onStreamStart goes on with an output `o` that has answered `e` to Open.
opened_with : Player → String → ℤ → ℤ → ℤ → Malgo → Option OpenError → Player
opened_with p codec r c d o none =
    set_gain (stream_state (record p { output = some o }) codec r c d) p.state.volume p.state.muted
opened_with p codec r c d o (some e) = record p { output = some o }

on_stream_start_lem :
    (p : Player) (codec : String) (r c d : ℤ) (b : Backend) (o o' : Malgo) (e : Option OpenError)
    → (make_output p).output ≡ some o
    → open_device o r c d b ≡ some (o', e)
    → on_stream_start p codec r c d b ≡ some (opened_with (make_output p) codec r c d o' e)
unfolding on_stream_start opened_with
on_stream_start_lem p codec r c d b o o' e h runs = ground (arith, h, runs)

module _ (p : Player) where
  make_output-none :
      p.output ≡ none → make_output p ≡ record p { output = some (new_malgo p.audio_device) }
  unfolding make_output
  make_output-none e = ground (arith, e)

  make_output-some : (o : Malgo) → p.output ≡ some o → make_output p ≡ p
  unfolding make_output
  make_output-some o e = ground (arith, e)

unready-Agrees : (o : Malgo) (s : PlayerState) → IsConsistent o → o.ready ≡ false → Agrees o s
unready-Agrees o s c off = record {
  consistent = c;
  mute = λ h. absurd (ground (arith, h, off));
  gain = λ h k. absurd (ground (arith, h, off));
}

new_malgo-unready : (name : String) → (new_malgo name).ready ≡ false
unfolding new_malgo
new_malgo-unready name = refl

make_output-InTune :
    (p : Player)
    → InTune p
    → (o : Malgo) × ((make_output p).output ≡ some o) × InTune (make_output p)
make_output-InTune p t = elim (Option-cases p.output) [
  | inl e ↦
      let o = new_malgo p.audio_device in
      let made = make_output-none p e in
      (
        o,
        ap (λ q. q.output) made,
        subst InTune (sym made) (
            unready-Agrees o p.state (new_malgo-IsConsistent p.audio_device)
              (new_malgo-unready p.audio_device)),
      )
  | inr (o, e) ↦
      let kept = make_output-some p o e in
      (o, ap (λ q. q.output) kept ∙ e, subst InTune (sym kept) t)
]

opened_with-InTune :
    (p : Player) (codec : String) (r c d : ℤ) (o : Malgo) (e : Option OpenError)
    → Opened r c d o e
    → IsConsistent o
    → InTune (opened_with p codec r c d o e)
unfolding opened_with set_gain stream_state on_output notify_state_change
opened_with-InTune p codec r c d o none h v =
    Agrees-set o
      (record p.state {
        codec = codec;
        sample_rate = r;
        channels = c;
        bit_depth = d;
        state = "playing";
      })
      v
opened_with-InTune p codec r c d o (some e) (is_closed _ off) v = unready-Agrees o p.state v off

on_stream_start-InTune :
    (p : Player) (codec : String) (r c d : ℤ) (b : Backend)
    → Fits r c
    → InTune p
    → (q : Player) × (on_stream_start p codec r c d b ≡ some q) × InTune q
on_stream_start-InTune p codec r c d b (n, fits) t =
    let (o, has, made) = make_output-InTune p t in
    let a = InTune-output (make_output p) o made has in
    let (o', e, runs, ends, v) = open_device-Opened o r c d b n fits a.consistent in
    (
      opened_with (make_output p) codec r c d o' e,
      on_stream_start_lem p codec r c d b o o' e has runs,
      opened_with-InTune (make_output p) codec r c d o' e ends v,
    )

-- A call of one of the player's methods or callbacks, with the answers that it gets.
pub data Event : Type 0 where
  connects : Event
  loses : Event
  sets_volume : ℤ → Bool → Event
  mutes : Bool → Bool → Event
  starts : String → ℤ → ℤ → ℤ → Backend → Event
  ends : Event
  plays : String → Bool → Event
  enters : Bool → Event
  exits : Bool → Event
  closes : Event

unfoldable pub step : Player → Event → Option Player
step p connects = some (connected p)
step p loses = some (connection_lost p)
step p (sets_volume v delivers) = some (player_set_volume p v delivers)
step p (mutes m delivers) = some (mute p m delivers)
step p (starts codec r c d b) = on_stream_start p codec r c d b
step p ends = some (on_stream_end p)
step p (plays s delivers) = some ((set_playback p s delivers).0)
step p (enters delivers) = some ((enter_external_source p delivers).0)
step p (exits delivers) = some ((exit_external_source p delivers).0)
step p closes = some (close_player p)

unfoldable pub run : List Event → Player → Option Player
unfolding step
run [] p = some p
run (e ∷ es) p = elim (step p e) [ none ↦ none | some q ↦ run es q ]

-- The server starts streams only in formats whose ring has a size.
abbrev pub Sized : Event → Type 0
Sized connects = Unit
Sized loses = Unit
Sized (sets_volume v delivers) = Unit
Sized (mutes m delivers) = Unit
Sized (starts codec r c d b) = Fits r c
Sized ends = Unit
Sized (plays s delivers) = Unit
Sized (enters delivers) = Unit
Sized (exits delivers) = Unit
Sized closes = Unit

Kept-playback : (p : Player) (s : String) (d : Bool) → Kept p (set_playback p s d).0
unfolding set_playback in_state notify_state_change send_state
Kept-playback p s d = record { output = ground arith; volume = ground arith; muted = ground arith }

Kept-enter : (p : Player) (d : Bool) → Kept p (enter_external_source p d).0
unfolding enter_external_source in_state notify_state_change
Kept-enter p d = record { output = ground arith; volume = ground arith; muted = ground arith }

Kept-exit : (p : Player) (d : Bool) → Kept p (exit_external_source p d).0
unfolding exit_external_source in_state notify_state_change send_state
Kept-exit p d = record { output = ground arith; volume = ground arith; muted = ground arith }

step-InTune :
    (p : Player) (e : Event) → Sized e → InTune p → (q : Player) × (step p e ≡ some q) × InTune q
unfolding step connected connection_lost on_stream_end notify_state_change in_state
step-InTune p connects h t =
    (_, refl, Kept-InTune p (connected p) (record { output = refl; volume = refl; muted = refl }) t)
step-InTune p loses h t = (
  _,
  refl,
  Kept-InTune p (connection_lost p) (record { output = refl; volume = refl; muted = refl }) t,
)
step-InTune p (sets_volume v d) h t = (_, refl, player_set_volume-InTune p v d t)
step-InTune p (mutes m d) h t = (_, refl, mute-InTune p m d t)
step-InTune p (starts codec r c d b) h t = on_stream_start-InTune p codec r c d b h t
step-InTune p ends h t = (
  _,
  refl,
  Kept-InTune p (on_stream_end p) (record { output = refl; volume = refl; muted = refl }) t,
)
step-InTune p (plays s d) h t =
    (_, refl, Kept-InTune p ((set_playback p s d).0) (Kept-playback p s d) t)
step-InTune p (enters d) h t =
    (_, refl, Kept-InTune p ((enter_external_source p d).0) (Kept-enter p d) t)
step-InTune p (exits d) h t =
    (_, refl, Kept-InTune p ((exit_external_source p d).0) (Kept-exit p d) t)
step-InTune p closes h t = (_, refl, close_player-InTune p t)

run-cons :
    (e : Event) (es : List Event) (p q : Player) → step p e ≡ some q → run (e ∷ es) p ≡ run es q
unfolding run
run-cons e es p q h = rw (h, run) refl

-- Through any sequence of calls, none of which panics where the streams' formats have a ring size,
-- an output that is ready has the player's mute, and, unless it is muted, its gain is the player's
-- volume (cut to 0 to 100): also after changes while muted, a reconnection, a new stream or an
-- output that could not be opened.
pub run-InTune :
    (es : List Event) (p : Player)
    → All Sized es
    → InTune p
    → (q : Player) × (run es p ≡ some q) × InTune q
unfolding run
run-InTune [] p h t = (p, refl, t)
run-InTune (e ∷ es) p h t =
    let (q, goes, tq) = step-InTune p e h.0 t in
    let (z, rest, tz) = run-InTune es q h.1 tq in (z, run-cons e es p q goes ∙ rest, tz)
