-- ===== src/BufferTracker/Prune.antt =====
-- PruneConsumed of pkg/sendspin/buffer_tracker.go against the queue of the held chunks.
use native.Mathlib.Nat.{mod-lt, mod-eq_of_lt}
use mathlib.Core.Path.{subst}
use sendspin_go.Prelude.{
  ℕ, zero, suc, ◌+◌, ◌-◌, ◌%◌, ◌≡◌, refl, sym, ap, ◌∙◌, List, [], ◌∷◌, inl, inr, some, arith,
  length, get_elem?, get_or, Bool-cases, get_elem?-eq-get_or, if◌then◌else◌,
}
use sendspin_go.Prelude.Int.{ℤ, ltb_ℤ}
use sendspin_go.Prelude.Int64.{sub64, wrap64, sub64-wrap64}
use sendspin_go.Prelude.Ring
use sendspin_go.BufferTracker.{
  BufferedChunk, zero_chunk, BufferTracker, evict, prune_loop, prune_consumed,
}
use sendspin_go.BufferTracker.Contents.{
  IsValid, contents, entry, window, total_bytes, total_duration,
}

-- The queue without the chunks at its front that end at or before `now`.
abbrev pub drop_expired : ℤ → List BufferedChunk → List BufferedChunk
drop_expired now [] = []
drop_expired now (c ∷ q) = if ltb_ℤ now c.end_time_us then c ∷ q else drop_expired now q

-- `t'` holds the queue `q` well-formed, in the ring and under the limits of `t`.
pub record Holds (t : BufferTracker) (q : List BufferedChunk) (t' : BufferTracker) : Type 0 where
  pub valid : IsValid t'
  pub holds : contents t' ≡ q
  pub capacity : t'.capacity_bytes ≡ t.capacity_bytes
  pub limit : t'.max_duration_us ≡ t.max_duration_us

pub Holds-trans :
    {t u w : BufferTracker} {q r : List BufferedChunk} → Holds t q u → Holds u r w → Holds t r w
Holds-trans h k = record {
  valid = k.valid;
  holds = k.holds;
  capacity = k.capacity ∙ h.capacity;
  limit = k.limit ∙ h.limit;
}

-- The oldest chunk of a tracker that holds some.
module _ (t : BufferTracker) (v : IsValid t) (k : ℕ) (n : t.count ≡ suc k) where
  oldest : BufferedChunk
  oldest = entry t.ring t.head 0

  rest : List BufferedChunk
  rest = window t.ring ((t.head + 1) % length t.ring) 0 k

  get_elem?-head : get_elem? t.ring t.head ≡ some oldest
  unfolding oldest
  get_elem?-head =
      get_elem?-eq-get_or t.ring t.head zero_chunk v.head_in
      ∙ ap (λ i. some (get_or t.ring i zero_chunk)) (at ∙ ap (λ i. i % length t.ring) (omega arith))
    where
      at : t.head ≡ t.head % length t.ring
      at = sym (mod-eq_of_lt v.head_in)

  contents-eq-cons : contents t ≡ oldest ∷ rest
  unfolding oldest rest
  contents-eq-cons =
      rw n (ap (◌∷◌ (entry t.ring t.head 0)) (Ring.window-head zero_chunk t.ring t.head k))

  evict-Holds : Holds t rest (evict t oldest)
  unfolding evict oldest rest
  evict-Holds = record {
    valid = record {
      slots = v.slots;
      head_in = mod-lt _ v.slots;
      count_in = omega arith;
      bytes =
          ap (λ b. sub64 b oldest.byte_count) (v.bytes ∙ ap (λ q. wrap64 (total_bytes q)) front)
          ∙ sub64-wrap64 oldest.byte_count (total_bytes rest)
          ∙ ap (λ i. wrap64 (total_bytes (window t.ring next 0 i))) (sym fewer);
      duration =
          ap (λ b. sub64 b oldest.duration_us)
            (v.duration ∙ ap (λ q. wrap64 (total_duration q)) front)
          ∙ sub64-wrap64 oldest.duration_us (total_duration rest)
          ∙ ap (λ i. wrap64 (total_duration (window t.ring next 0 i))) (sym fewer);
    };
    holds = ap (window t.ring next 0) fewer;
    capacity = refl;
    limit = refl;
  }
    where
      next : ℕ
      next = (t.head + 1) % length t.ring

      fewer : t.count - 1 ≡ k
      fewer = omega arith

      front : contents t ≡ oldest ∷ rest
      front = contents-eq-cons

  count-evict : (evict t oldest).count ≡ k
  unfolding evict
  count-evict = omega arith

prune_loop_refines :
    (k : ℕ) (t : BufferTracker) (now : ℤ)
    → IsValid t
    → t.count ≡ k
    → (t' : BufferTracker) × (prune_loop k t now ≡ some t')
      × Holds t (drop_expired now (contents t)) t'
unfolding prune_loop
prune_loop_refines zero t now v n =
    (t, refl, record { valid = v; holds = rw n; capacity = refl; limit = refl })
prune_loop_refines (suc k) t now v n =
    let e = oldest t v k n in
    let front = contents-eq-cons t v k n in
    elim (Bool-cases (ltb_ℤ now e.end_time_us)) [
      | inl early ↦ (
        t,
        rw (get_elem?-head t v k n, early, prune_loop),
        record {
          valid = v;
          holds = front ∙ sym (ap (drop_expired now) front ∙ rw early);
          capacity = refl;
          limit = refl;
        },
      )
      | inr late ↦
          let first = evict-Holds t v k n in
          let fewer = count-evict t v k n in
          let (t', runs, h) = prune_loop_refines k (evict t e) now first.valid fewer in
          let dropped : drop_expired now (contents t) ≡ drop_expired now (rest t v k n) =
            ap (drop_expired now) front ∙ rw late in
          (
            t',
            rw (get_elem?-head t v k n, late, prune_loop) runs,
            Holds-trans first (
                subst (λ q. Holds (evict t e) q t')
                  (ap (drop_expired now) first.holds ∙ sym dropped) h),
          )
    ]

-- On a well-formed tracker PruneConsumed does not panic. It takes from the front every chunk that
-- has ended by `now`, up to the first that has not, keeps the others in order, and leaves the
-- tracker well-formed under the same limits.
pub prune_consumed_refines :
    (t : BufferTracker) (now : ℤ)
    → IsValid t
    → (t' : BufferTracker) × (prune_consumed t now ≡ some t')
      × Holds t (drop_expired now (contents t)) t'
unfolding prune_consumed
prune_consumed_refines t now v = prune_loop_refines t.count t now v refl
