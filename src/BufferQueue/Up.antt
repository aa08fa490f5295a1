-- ===== src/BufferQueue/Up.antt =====
-- heap.up on the BufferQueue of pkg/sendspin/scheduler.go restores the heap order.
use mathlib.Core.List.{Perm}
use mathlib.Core.List.Perm
use sendspin_go.Prelude.{
  ℕ, zero, suc, ◌<◌, ◌≡◌, ◌≢◌, List, inl, inr, arith, length, ◌==◌, Bool-cases,
}
use sendspin_go.Prelude.Int.{◌≤ℤ◌, ◌<ℤ◌}
use sendspin_go.Audio.{Buffer}
use sendspin_go.BufferQueue.{less, swap, parent, up}
use sendspin_go.BufferQueue.Order.{key, IsHeap, less-eq, item-swap, swap-perm, length-swap}

-- Only the edge above `i` may be out of order.
pub record UpInv (q : List Buffer) (i : ℕ) : Type 0 where
  pub inside : i < length q
  pub edges : (c : ℕ) → 0 < c → c < length q → c ≢ i → key q (parent c) ≤ℤ key q c
  pub bridged : (c : ℕ) → 0 < c → c < length q → parent c ≡ i → 0 < i → key q (parent i) ≤ℤ key q c

module _ (q : List Buffer) (i : ℕ) (v : UpInv q i) (p : 0 < i)
    (low : key q i <ℤ key q (parent i)) where
  above : parent i < length q
  above = omega (arith, v.inside)

  swap-UpInv : UpInv (swap q (parent i) i) (parent i)
  swap-UpInv =
      let size = length-swap q (parent i) i above v.inside in
      let at = item-swap q (parent i) i above v.inside in
      record {
        inside = omega (arith, size, above);
        edges = λ c a b e. ground (arith, size, at c, at (parent c), v.edges c, v.bridged c);
        bridged = λ c a b e f.
            ground
              (arith, size, at c, at (parent (parent i)), v.edges c, v.edges (parent i), v.inside);
      }

-- Enough rounds for the depth of `i` turn a queue with one entry too early in the tree into a heap
-- of the same buffers.
pub up_restores :
    (k : ℕ) (q : List Buffer) (i : ℕ) → i < k → UpInv q i → IsHeap (up k q i) × Perm (up k q i) q
unfolding up
up_restores zero q i f v = absurd (omega arith)
up_restores (suc k) q i f v = elim (Bool-cases (parent i == i)) [
  | inl root ↦ rw root ((λ c a b. v.edges c a b (ground arith)), Perm.refl q)
  | inr inner ↦
      let p : 0 < i = ground arith in
      let above : parent i < length q = omega (arith, v.inside) in
      elim (Bool-cases (less q i (parent i))) [
        | inr settled ↦
            let ordered : key q (parent i) ≤ℤ key q i =
              ground (arith, less-eq q i (parent i) v.inside above) in
            rw (inner, settled) ((λ c a b. ground (arith, v.edges c)), Perm.refl q)
        | inl below ↦
            let low : key q i <ℤ key q (parent i) =
              ground (arith, less-eq q i (parent i) v.inside above) in
            let (heap, same) =
              up_restores k (swap q (parent i) i) (parent i) (omega arith)
                (swap-UpInv q i v p low) in
            rw (inner, below) (heap, Perm.trans same (swap-perm q (parent i) i above v.inside))
      ]
]
