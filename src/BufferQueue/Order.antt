-- ===== src/BufferQueue/Order.antt =====
-- The heap order on the play times of pkg/sendspin/scheduler.go's BufferQueue.
use mathlib.Core.List.{Perm}
use sendspin_go.Prelude.{ℕ, zero, suc, ◌<◌, ◌≡◌, List, arith, length, if◌then◌else◌, ◌==◌}
use sendspin_go.Prelude.Int.{ℤ, ◌≤ℤ◌, ltb_ℤ}
use sendspin_go.Prelude.Array.{exchange, get_or-exchange, exchange-perm, length-exchange}
use sendspin_go.Audio.{Buffer}
use sendspin_go.BufferQueue.{zero_buffer, item, less, swap, parent}

abbrev pub key : List Buffer → ℕ → ℤ
key q i = (item q i).play_at

-- Among the first `n` entries no child plays before its parent.
abbrev pub IsHeapTo : ℕ → List Buffer → Type 0
IsHeapTo n q = (c : ℕ) → 0 < c → c < n → key q (parent c) ≤ℤ key q c

abbrev pub IsHeap : List Buffer → Type 0
IsHeap q = IsHeapTo (length q) q

root_least_below :
    (k : ℕ) (n : ℕ) (q : List Buffer) (i : ℕ) → IsHeapTo n q → i < k → i < n → key q 0 ≤ℤ key q i
root_least_below zero n q i h f p = absurd (omega arith)
root_least_below (suc k) n q zero h f p = omega arith
root_least_below (suc k) n q (suc i) h f p = omega (
  arith,
  h (suc i) (omega arith) p,
  root_least_below k n q (parent (suc i)) h (omega arith) (omega arith),
)

-- The first entry of a heap has the earliest play time.
pub root_least : (n : ℕ) (q : List Buffer) (i : ℕ) → IsHeapTo n q → i < n → key q 0 ≤ℤ key q i
root_least n q i h p = root_least_below (suc i) n q i h (omega arith) p

module _ (q : List Buffer) (i j : ℕ) (hi : i < length q) (hj : j < length q) where
  pub less-eq : less q i j ≡ ltb_ℤ (key q i) (key q j)
  unfolding less
  less-eq = ground arith

  pub swap-eq : swap q i j ≡ exchange q i j zero_buffer
  unfolding swap
  swap-eq = ground arith

  pub item-swap :
      (c : ℕ)
      → item (swap q i j) c ≡ (if j == c then item q i else if i == c then item q j else item q c)
  item-swap c = rw swap-eq (get_or-exchange q i j zero_buffer hi hj c)

  pub swap-perm : Perm (swap q i j) q
  swap-perm = rw swap-eq (exchange-perm q i j zero_buffer hi hj)

  pub length-swap : length (swap q i j) ≡ length q
  length-swap = rw swap-eq (length-exchange q i j zero_buffer)
