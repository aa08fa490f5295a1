-- ===== src/ClientDialer/Slots.antt =====
-- The slots of pkg/sendspin/client_dialer.go: no instance is dialed twice at a time, a finished
-- connection is never dialed again, and a failed one waits for its cooldown.
use mathlib.Core.Path.{subst}
use sendspin_go.Prelude.{
  suc, ◌≤◌, ◌≡◌, ◌↔◌, refl, sym, ◌∙◌, ◌⊎◌, inl, inr, true, false, List, [], ◌∷◌, Option, none, some,
  arith, Option-cases,
}
use sendspin_go.Prelude.Int.{ℤ, ◌+ℤ◌, ◌≤ℤ◌}
use sendspin_go.Prelude.Map.{update}
use sendspin_go.Prelude.Text.{String, eq_iff, eq_refl}
use sendspin_go.ClientDialer.{
  ClientDialer, cooling, claim, completed, retry_requested, failed, backoff_after, release, Dialing,
  Event, discovered, ended, step, run, start,
}

-- The slot of one instance: it holds at most one dial, and only while it is active.
abbrev pub IsExclusive : Dialing → String → Type 0
IsExclusive s i = (s.under_way i ≤ 1) × ((s.under_way i ≡ 0) ⊎ (s.dialer.active i ≡ true))

step-IsExclusive :
    (s : Dialing) (e : Event) (i : String) {t : Dialing}
    → step s e ≡ some t
    → IsExclusive s i
    → IsExclusive t i
unfolding step claim release update
step-IsExclusive s (discovered j now) i h v = ground (arith, eq_iff j i)
step-IsExclusive s (ended j completed now) i h v = ground (arith, eq_iff j i)
step-IsExclusive s (ended j retry_requested now) i h v = ground (arith, eq_iff j i)
step-IsExclusive s (ended j failed now) i h v = ground (arith, eq_iff j i)

-- A latched slot: active, with no dial under way.
abbrev IsLatched : Dialing → String → Type 0
IsLatched s i = (s.under_way i ≡ 0) × (s.dialer.active i ≡ true)

step-IsLatched :
    (s : Dialing) (e : Event) (i : String) {t : Dialing}
    → step s e ≡ some t
    → IsLatched s i
    → IsLatched t i
unfolding step claim release update
step-IsLatched s (discovered j now) i h v = ground (arith, eq_iff j i)
step-IsLatched s (ended j completed now) i h v = ground (arith, eq_iff j i)
step-IsLatched s (ended j retry_requested now) i h v = ground (arith, eq_iff j i)
step-IsLatched s (ended j failed now) i h v = ground (arith, eq_iff j i)

run-none : (s : Dialing) (e : Event) (es : List Event) → step s e ≡ none → run s (e ∷ es) ≡ none
unfolding run
run-none s e es h = rw (h, run)

run-some :
    (s : Dialing) (e : Event) (es : List Event) (s' : Dialing)
    → step s e ≡ some s'
    → run s (e ∷ es) ≡ run s' es
unfolding run
run-some s e es s' h = rw (h, run)

none-absurd : {P : Type 0} {t : Dialing} → ◌≡◌ {A = Option Dialing} none (some t) → P
none-absurd h = cc

completed-IsLatched :
    (s t : Dialing) (i : String) (now : ℤ)
    → IsExclusive s i
    → step s (ended i completed now) ≡ some t
    → IsLatched t i
unfolding step release update
completed-IsLatched s t i now v h = ground (arith, eq_refl i)

-- An invariant of each step is one of a run.
module _ (P : Dialing → Type 0)
    (keeps : (s t : Dialing) (e : Event) → step s e ≡ some t → P s → P t) where
  run-keeps : (es : List Event) (s : Dialing) {t : Dialing} → run s es ≡ some t → P s → P t
  unfolding run
  run-keeps [] s {t = t} h p = let e : s ≡ t = cc in subst P e p
  run-keeps (e ∷ es) s h p = elim (Option-cases (step s e)) [
    | inl stuck ↦ none-absurd (sym (run-none s e es stuck) ∙ h)
    | inr (s', goes) ↦ run-keeps es s' (sym (run-some s e es s' goes) ∙ h) (keeps s s' e goes p)
  ]

-- However the discoveries and the ends of dials interleave, there is never more than one dial or
-- connection of an instance.
pub at_most_one_dial :
    (es : List Event) (i : String) {t : Dialing} → run start es ≡ some t → t.under_way i ≤ 1
unfolding start
at_most_one_dial es i h =
    (run-keeps (λ s. IsExclusive s i) (λ s t e q v. step-IsExclusive s e i q v) es start h
      (omega arith, inl refl)).0

-- After a connection that completed, no event dials the instance again, and a claim is refused.
pub completed_is_latched :
    (s t u : Dialing) (i : String) (now later : ℤ) (es : List Event)
    → IsExclusive s i
    → step s (ended i completed now) ≡ some t
    → run t es ≡ some u
    → (u.under_way i ≡ 0) × ((claim u.dialer i later).0 ≡ false)
unfolding claim
completed_is_latched s t u i now later es v first rest =
    let latched : IsLatched t i = completed-IsLatched s t i now v first in
    let (idle, active) =
      run-keeps (λ r. IsLatched r i) (λ a b e q w. step-IsLatched a e i q w) es t rest latched in
    (idle, rw active)

-- After the end of a dial at time `t`: a failed instance may be claimed again exactly from the end
-- of its backoff on, one that asked to be dialed again may at once.
pub release_then_claim :
    (d : ClientDialer) (i : String) (t now : ℤ)
    → (((claim (release d i failed t) i now).0 ≡ true)
        ↔ (t +ℤ backoff_after d.base_backoff d.max_backoff (suc (d.failures i)) ≤ℤ now))
      × ((claim (release d i retry_requested t) i now).0 ≡ true)
unfolding claim release update cooling
release_then_claim d i t now =
    ((λ h. ground (arith, eq_refl i), λ h. ground (arith, eq_refl i)), ground (arith, eq_refl i))
