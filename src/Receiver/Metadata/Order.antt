-- ===== src/Receiver/Metadata/Order.antt =====
-- The order in which a receiver of pkg/sendspin/receiver.go applies updates that are not drained in
-- the order of their times.
use sendspin_go.Prelude.{◌≡◌, refl, ap, ◌∙◌, true, false, [], ◌∷◌, arith}
use sendspin_go.Prelude.Int.{ℤ, pos, leb_ℤ, ◌≤ℤ◌, ◌<ℤ◌}
use sendspin_go.Receiver.Metadata.{
  MetadataState, Display, merged, show, apply_metadata, enqueue_metadata, drain_pending_metadata,
}
use sendspin_go.Receiver.Metadata.Pending.{
  immediate, enqueue_metadata_lem, drain_pending_metadata_lem, arrives, ticks, run, step,
}

module _ (r : Display) (empty : r.pending_metadata ≡ []) where
  -- A future update that arrives at an empty queue is the only one that waits.
  first_waits :
      (m : MetadataState) (now : ℤ)
      → immediate m now ≡ false
      → enqueue_metadata r m now ≡ record r { pending_metadata = m ∷ [] }
  first_waits m now e = enqueue_metadata_lem r m now (rw empty tt) ∙ rw (e, empty) refl

  waiting : MetadataState → Display
  waiting m = record r { pending_metadata = m ∷ [] }

  -- The second of two waiting updates with the same time goes in front of the first, so that a
  -- drain applies the older message last, and its fields win.
  pub run-same_time :
      (a b : MetadataState) (t0 t1 t2 : ℤ)
      → pos 0 <ℤ a.timestamp
      → a.timestamp ≡ b.timestamp
      → t0 <ℤ a.timestamp
      → t1 <ℤ a.timestamp
      → a.timestamp ≤ℤ t2
      → (run (arrives a t0 ∷ arrives b t1 ∷ ticks t2 ∷ []) r).merged_metadata
        ≡ merged (merged r.merged_metadata b) a
  unfolding run step apply_metadata show waiting
  run-same_time a b t0 t1 t2 positive same early0 early1 come =
      let wait_a : immediate a t0 ≡ false = ground arith in
      let wait_b : immediate b t1 ≡ false = ground (arith, same) in
      let both : enqueue_metadata (waiting a) b t1 ≡ record r { pending_metadata = b ∷ a ∷ [] } =
        enqueue_metadata_lem (waiting a) b t1 (tt, tt) ∙ ground (arith, wait_b, same) in
      let sorted : b.timestamp ≤ℤ a.timestamp = ground (arith, same) in
      let full = record r { pending_metadata = b ∷ a ∷ [] } in
      let a_due : leb_ℤ a.timestamp t2 ≡ true = ground arith in
      let b_due : leb_ℤ b.timestamp t2 ≡ true = ground (arith, same) in
      ap (λ x. (drain_pending_metadata (enqueue_metadata x b t1) t2).merged_metadata)
        (first_waits a t0 wait_a)
      ∙ ap (λ x. (drain_pending_metadata x t2).merged_metadata) both
      ∙ ap (λ x. x.merged_metadata) (drain_pending_metadata_lem full t2 ((sorted, tt), (tt, tt)))
      ∙ rw (b_due, a_due) refl

  -- An update that is due when it arrives is applied at once, before an earlier one that waits for
  -- the next tick; the tick then applies the earlier update over it, and its fields win.
  pub run-overtaken :
      (a b : MetadataState) (t0 t1 t2 : ℤ)
      → pos 0 <ℤ a.timestamp
      → a.timestamp <ℤ b.timestamp
      → t0 <ℤ a.timestamp
      → b.timestamp ≤ℤ t1
      → b.timestamp ≤ℤ t2
      → (run (arrives a t0 ∷ arrives b t1 ∷ ticks t2 ∷ []) r).merged_metadata
        ≡ merged (merged r.merged_metadata b) a
  unfolding run step apply_metadata show waiting
  run-overtaken a b t0 t1 t2 positive before early0 late1 late2 =
      let wait_a : immediate a t0 ≡ false = ground arith in
      let now_b : immediate b t1 ≡ true = ground arith in
      let a_due : leb_ℤ a.timestamp t2 ≡ true = ground arith in
      let over = apply_metadata (waiting a) b in
      ap (λ x. (drain_pending_metadata (enqueue_metadata x b t1) t2).merged_metadata)
        (first_waits a t0 wait_a)
      ∙ ap (λ x. (drain_pending_metadata x t2).merged_metadata)
          (enqueue_metadata_lem (waiting a) b t1 (tt, tt) ∙ rw now_b refl)
      ∙ ap (λ x. x.merged_metadata) (drain_pending_metadata_lem over t2 (tt, tt))
      ∙ rw a_due refl
