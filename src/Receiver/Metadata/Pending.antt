-- ===== src/Receiver/Metadata/Pending.antt =====
-- The waiting updates of pkg/sendspin/receiver.go: their order, and what a drain applies.
use mathlib.Core.Path.{ap₂}
use sendspin_go.Prelude.{
  ℕ, zero, suc, ◌+◌, ◌<◌, ◌≡◌, refl, sym, ap, ◌∙◌, inl, inr, Bool, true, false, ◌||◌, List, [], ◌∷◌,
  arith, if◌then◌else◌, length, drop, All, All-mono, Bool-cases,
}
use sendspin_go.Prelude.Int.{ℤ, pos, leb_ℤ, ltb_ℤ, ◌≤ℤ◌, ◌<ℤ◌}
use sendspin_go.Prelude.Text.{String}
use sendspin_go.Prelude.Search.{search, IsMonotone, IsFirst, search-IsFirst}
use sendspin_go.Receiver.Metadata.{
  MetadataState, Display, show, apply_metadata, apply_controller, insert_at, not_before,
  enqueue_metadata, drain_loop, drain_pending_metadata,
}

abbrev pub Ascending : List MetadataState → Type 0
Ascending [] = Unit
Ascending (x ∷ ms) = All (λ y. x.timestamp ≤ℤ y.timestamp) ms × Ascending ms

-- Before the first entry that is not earlier.
abbrev pub insert_sorted : List MetadataState → MetadataState → List MetadataState
insert_sorted [] m = m ∷ []
insert_sorted (x ∷ ms) m =
    if leb_ℤ m.timestamp x.timestamp then m ∷ x ∷ ms else x ∷ insert_sorted ms m

not_before-later :
    (ms : List MetadataState) (a t : ℤ) (j : ℕ)
    → t ≤ℤ a
    → All (λ y. a ≤ℤ y.timestamp) ms
    → j < length ms
    → not_before ms t j ≡ true
unfolding not_before
not_before-later [] a t j le all p = absurd (omega arith)
not_before-later (x ∷ ms) a t zero le all p = ground (arith, all.0)
not_before-later (x ∷ ms) a t (suc j) le all p = not_before-later ms a t j le all.1 (omega arith)

not_before-IsMonotone :
    (ms : List MetadataState) (t : ℤ) → Ascending ms → IsMonotone (not_before ms t) (length ms)
unfolding not_before
not_before-IsMonotone [] t s i j le p h = absurd (omega arith)
not_before-IsMonotone (x ∷ ms) t s zero zero le p h = h
not_before-IsMonotone (x ∷ ms) t s zero (suc j) le p h =
    not_before-later ms x.timestamp t j (ground (arith, h)) s.0 (omega arith)
not_before-IsMonotone (x ∷ ms) t s (suc i) zero le p h = absurd (omega arith)
not_before-IsMonotone (x ∷ ms) t s (suc i) (suc j) le p h =
    not_before-IsMonotone ms t s.1 i j (omega arith) (omega arith) h

insert_at-first :
    (ms : List MetadataState) (m : MetadataState) (i : ℕ)
    → IsFirst (not_before ms m.timestamp) (length ms) i
    → insert_at ms i m ≡ insert_sorted ms m
unfolding insert_at not_before
insert_at-first [] m zero f = refl
insert_at-first [] m (suc i) f = absurd (omega (arith, f.inside))
insert_at-first (x ∷ ms) m zero f =
    let e : leb_ℤ m.timestamp x.timestamp ≡ true = f.at (omega arith) in ground (arith, e)
insert_at-first (x ∷ ms) m (suc i) f =
    let e : leb_ℤ m.timestamp x.timestamp ≡ false = f.before 0 (omega arith) in
    let rest = insert_at-first ms m i (record {
      inside = omega (arith, f.inside);
      before = λ j p. f.before (suc j) (omega arith);
      at = λ p. f.at (omega arith);
    }) in
    ground (arith, e, rest)

insert_sorted-All :
    (P : MetadataState → Type 0) (ms : List MetadataState) (m : MetadataState)
    → P m
    → All P ms
    → All P (insert_sorted ms m)
insert_sorted-All P [] m p h = (p, tt)
insert_sorted-All P (x ∷ ms) m p h = elim (Bool-cases (leb_ℤ m.timestamp x.timestamp)) [
  | inl e ↦ rw e (p, h)
  | inr e ↦ rw e (h.0, insert_sorted-All P ms m p h.1)
]

insert_sorted-Ascending :
    (ms : List MetadataState) (m : MetadataState) → Ascending ms → Ascending (insert_sorted ms m)
insert_sorted-Ascending [] m s = (tt, tt)
insert_sorted-Ascending (x ∷ ms) m s = elim (Bool-cases (leb_ℤ m.timestamp x.timestamp)) [
  | inl e ↦
      let le : m.timestamp ≤ℤ x.timestamp = ground (arith, e) in
      rw e (
        (
          le,
          All-mono (λ y. x.timestamp ≤ℤ y.timestamp) (λ y. m.timestamp ≤ℤ y.timestamp) ms
              (λ y p. omega (arith, le, p)) s.0,
        ),
        s,
      )
  | inr e ↦ rw e (
    insert_sorted-All (λ y. x.timestamp ≤ℤ y.timestamp) ms m (ground (arith, e)) s.0,
    insert_sorted-Ascending ms m s.1,
  )
]

-- An update that is due at once.
abbrev pub immediate : MetadataState → ℤ → Bool
immediate m now = leb_ℤ m.timestamp (pos 0) || leb_ℤ m.timestamp now

-- Binary search finds the place of a future update in an ascending queue.
pub enqueue_metadata_lem :
    (r : Display) (m : MetadataState) (now : ℤ)
    → Ascending r.pending_metadata
    → enqueue_metadata r m now ≡ (
        if immediate m now
        then apply_metadata r m
        else record r { pending_metadata = insert_sorted r.pending_metadata m })
unfolding enqueue_metadata
enqueue_metadata_lem r m now s =
    let t = m.timestamp in
    let q = r.pending_metadata in
    let place =
      insert_at-first q m (search (length q) (not_before q t))
        (search-IsFirst (length q) (not_before q t) (not_before-IsMonotone q t s)) in
    ap (λ p. if immediate m now then apply_metadata r m else record r { pending_metadata = p })
      place

abbrev pub due : List MetadataState → ℤ → List MetadataState
due [] now = []
due (m ∷ ms) now = if leb_ℤ m.timestamp now then m ∷ due ms now else due ms now

abbrev pub later : List MetadataState → ℤ → List MetadataState
later [] now = []
later (m ∷ ms) now = if leb_ℤ m.timestamp now then later ms now else m ∷ later ms now

abbrev pub apply_all : List MetadataState → Display → Display
apply_all [] r = r
apply_all (m ∷ ms) r = apply_all ms (apply_metadata r m)

none_due :
    (ms : List MetadataState) (a now : ℤ)
    → now <ℤ a
    → All (λ y. a ≤ℤ y.timestamp) ms
    → (due ms now ≡ []) × (later ms now ≡ ms)
none_due [] a now lt all = (refl, refl)
none_due (x ∷ ms) a now lt all =
    let (d, l) = none_due ms a now lt all.1 in
    let e : leb_ℤ x.timestamp now ≡ false = ground (arith, all.0) in (rw e d, rw e (ap (◌∷◌ x) l))

module _ (m : MetadataState) (ms : List MetadataState) (r : Display) (now : ℤ) (k : ℕ) where
  drain_loop-due :
      ltb_ℤ now m.timestamp ≡ false
      → drain_loop (m ∷ ms) r now k ≡ drain_loop ms (apply_metadata r m) now (suc k)
  unfolding drain_loop
  drain_loop-due e = ground (arith, e)

  drain_loop-later : ltb_ℤ now m.timestamp ≡ true → drain_loop (m ∷ ms) r now k ≡ (r, k)
  unfolding drain_loop
  drain_loop-later e = ground (arith, e)

drain_loop_lem :
    (ms : List MetadataState) (r : Display) (now : ℤ) (k : ℕ)
    → Ascending ms
    → (drain_loop ms r now k ≡ (apply_all (due ms now) r, k + length (due ms now)))
      × (drop (length (due ms now)) ms ≡ later ms now)
unfolding drain_loop
drain_loop_lem [] r now k s = (ap (λ i. (r, i)) (omega arith), refl)
drain_loop_lem (m ∷ ms) r now k s = elim (Bool-cases (leb_ℤ m.timestamp now)) [
  | inl e ↦
      let (runs, left) = drain_loop_lem ms (apply_metadata r m) now (suc k) s.1 in
      let goes = drain_loop-due m ms r now k (ground (arith, e)) in
      (
        rw e (
            goes ∙ runs ∙ ap (λ i. (apply_all (due ms now) (apply_metadata r m), i)) (omega arith)),
        rw e left,
      )
  | inr e ↦
      let stop = drain_loop-later m ms r now k (ground (arith, e)) in
      let (d, l) = none_due ms m.timestamp now (ground (arith, e)) s.0 in
      (rw (e, d) (stop ∙ ap (λ i. (r, i)) (omega arith)), rw (e, d) (ap (◌∷◌ m) (sym l)))
]

pending-apply_all :
    (ms : List MetadataState) (r : Display) → (apply_all ms r).pending_metadata ≡ r.pending_metadata
unfolding apply_metadata show
pending-apply_all [] r = refl
pending-apply_all (m ∷ ms) r = pending-apply_all ms (apply_metadata r m)

-- Draining a queue in ascending order applies exactly the updates whose time has come, earliest
-- first, and leaves exactly the others waiting.
pub drain_pending_metadata_lem :
    (r : Display) (now : ℤ)
    → Ascending r.pending_metadata
    → drain_pending_metadata r now ≡ record (apply_all (due r.pending_metadata now) r) {
      pending_metadata = later r.pending_metadata now;
    }
unfolding drain_pending_metadata
drain_pending_metadata_lem r now s =
    let q = r.pending_metadata in
    let (runs, left) = drain_loop_lem q r now 0 s in
    let all = apply_all (due q now) r in
    ap (λ x. record x.0 { pending_metadata = drop x.1 x.0.pending_metadata }) runs
    ∙ ap₂ (λ n l. record all { pending_metadata = drop n l }) {y = length (due q now)} (omega arith)
        (pending-apply_all (due q now) r)
    ∙ ap (λ l. record all { pending_metadata = l }) left

-- What happens to a receiver's metadata: an update arrives, the timer ticks, or the server reports
-- the controller's repeat and shuffle.
pub data Event : Type 0 where
  arrives : MetadataState → ℤ → Event
  ticks : ℤ → Event
  controls : String → Bool → Event

unfoldable pub step : Display → Event → Display
step r (arrives m now) = enqueue_metadata r m now
step r (ticks now) = drain_pending_metadata r now
step r (controls repeat shuffle) = apply_controller r repeat shuffle

unfoldable pub run : List Event → Display → Display
unfolding step
run [] r = r
run (e ∷ es) r = run es (step r e)

-- In order, and none of them without a time of its own.
pub record IsQueue (r : Display) : Type 0 where
  pub ascending : Ascending r.pending_metadata
  pub timed : All (λ m. pos 0 <ℤ m.timestamp) r.pending_metadata

later-All :
    (P : MetadataState → Type 0) (ms : List MetadataState) (now : ℤ)
    → All P ms
    → All P (later ms now)
later-All P [] now h = tt
later-All P (m ∷ ms) now h = elim (Bool-cases (leb_ℤ m.timestamp now)) [
  | inl e ↦ rw e (later-All P ms now h.1)
  | inr e ↦ rw e (h.0, later-All P ms now h.1)
]

later-Ascending : (ms : List MetadataState) (now : ℤ) → Ascending ms → Ascending (later ms now)
later-Ascending [] now s = tt
later-Ascending (m ∷ ms) now s = elim (Bool-cases (leb_ℤ m.timestamp now)) [
  | inl e ↦ rw e (later-Ascending ms now s.1)
  | inr e ↦
      rw e (later-All (λ y. m.timestamp ≤ℤ y.timestamp) ms now s.0, later-Ascending ms now s.1)
]

step-IsQueue : (r : Display) (e : Event) → IsQueue r → IsQueue (step r e)
unfolding step apply_metadata apply_controller show
step-IsQueue r (arrives m now) v =
    let eq = enqueue_metadata_lem r m now v.ascending in
    elim (Bool-cases (immediate m now)) [
      | inl e ↦ rw (eq, e) (record { ascending = v.ascending; timed = v.timed })
      | inr e ↦
          rw (eq, e)
            (record {
              ascending = insert_sorted-Ascending r.pending_metadata m v.ascending;
              timed =
                  insert_sorted-All (λ y. pos 0 <ℤ y.timestamp) r.pending_metadata m
                    (ground (arith, e)) v.timed;
            })
    ]
step-IsQueue r (ticks now) v = rw (drain_pending_metadata_lem r now v.ascending) (record {
  ascending = later-Ascending r.pending_metadata now v.ascending;
  timed = later-All (λ y. pos 0 <ℤ y.timestamp) r.pending_metadata now v.timed;
})
step-IsQueue r (controls repeat shuffle) v = record { ascending = v.ascending; timed = v.timed }

-- Whatever arrives and whenever the timer ticks, the waiting updates stay in ascending order of
-- their times, which are all positive, as the binary search and the drain need.
pub run-IsQueue : (es : List Event) (r : Display) → IsQueue r → IsQueue (run es r)
unfolding run
run-IsQueue [] r v = v
run-IsQueue (e ∷ es) r v = run-IsQueue es (step r e) (step-IsQueue r e v)
