-- ===== src/BufferQueue/PushPop.antt =====
-- heap.Push and heap.Pop on the BufferQueue of pkg/sendspin/scheduler.go: a priority queue.
use mathlib.Core.List.{Perm, Mem, Memᴰ}
use mathlib.Core.List.Perm
use mathlib.Core.Path.{subst, subst₂}
use mathlib.Core.Logic.{∥∥₁_elim}
use native.Mathlib.Bridge.{le_prop}
use sendspin_go.Prelude.{
  ℕ, suc, ◌<◌, ◌≡◌, sym, ◌∙◌, List, [], ◌∷◌, ◌++◌, arith, length, take, length-append, length-take,
  get_or-append_left,
}
use sendspin_go.Prelude.Int.{◌≤ℤ◌}
use sendspin_go.Prelude.Array.{append-one-perm, take-append-last, get_or-take, length-perm}
use sendspin_go.Audio.{Buffer}
use sendspin_go.BufferQueue.{zero_buffer, item, parent, swap, down, push, pop}
use sendspin_go.BufferQueue.Order.{IsHeap, root_least, item-swap, swap-perm, length-swap}
use sendspin_go.BufferQueue.Up.{UpInv, up_restores}
use sendspin_go.BufferQueue.Down.{DownInv, Sifted, down_restores}

append-UpInv : (q : List Buffer) (b : Buffer) → IsHeap q → UpInv (q ++ b ∷ []) (length q)
append-UpInv q b h =
    let size = length-append q (b ∷ []) in
    record {
      inside = omega (arith, size);
      edges = λ c p l ne. ground (
        arith,
        h c,
        get_or-append_left q (b ∷ []) c zero_buffer,
        get_or-append_left q (b ∷ []) (parent c) zero_buffer,
        size,
      );
      bridged = λ c p l e f. absurd (omega (arith, size));
    }

-- Push keeps the heap order and adds exactly the new buffer.
pub push-IsHeap :
    (q : List Buffer) (b : Buffer) → IsHeap q → IsHeap (push q b) × Perm (push q b) (b ∷ q)
unfolding push
push-IsHeap q b h =
    let (heap, same) =
      up_restores (suc (length q)) (q ++ b ∷ []) (length q) (omega arith) (append-UpInv q b h) in
    (heap, Perm.trans same (append-one-perm q b))

module _ (x : Buffer) (rest : List Buffer) (h : IsHeap (x ∷ rest)) where
  swapped : List Buffer
  swapped = swap (x ∷ rest) 0 (length rest)

  swapped-DownInv : DownInv (length rest) swapped 0
  unfolding swapped
  swapped-DownInv =
      let at = item-swap (x ∷ rest) 0 (length rest) (omega arith) (omega arith) in
      record {
        within = omega (arith, length-swap (x ∷ rest) 0 (length rest) (omega arith) (omega arith));
        edges = λ c p l ne. ground (arith, at c, at (parent c), h c);
        bridged = λ c p l e f. absurd (omega arith);
      }

  sifted : List Buffer
  sifted = down (suc (length rest)) swapped 0 (length rest)

  sifted-Sifted : Sifted (length rest) swapped sifted
  unfolding sifted
  sifted-Sifted =
      down_restores (suc (length rest)) (length rest) swapped 0 (omega arith) swapped-DownInv

  length-sifted : length sifted ≡ suc (length rest)
  unfolding swapped
  length-sifted =
      sifted-Sifted.size ∙ length-swap (x ∷ rest) 0 (length rest) (omega arith) (omega arith)

  last-sifted : item sifted (length rest) ≡ x
  unfolding swapped
  last-sifted =
      sifted-Sifted.beyond (length rest) (omega arith)
      ∙ ground
          (arith, item-swap (x ∷ rest) 0 (length rest) (omega arith) (omega arith) (length rest))

  others-IsHeap : IsHeap (take (length rest) sifted)
  others-IsHeap c p l =
      let size : length (take (length rest) sifted) ≡ length rest =
        omega (arith, length-take (length rest) sifted, length-sifted) in
      subst₂ (λ (a b : Buffer). a.play_at ≤ℤ b.play_at)
        (sym (get_or-take (length rest) sifted (parent c) zero_buffer (omega arith)))
        (sym (get_or-take (length rest) sifted c zero_buffer (omega arith)))
        (sifted-Sifted.heap c p (omega arith))

  others-perm : Perm (x ∷ rest) (x ∷ take (length rest) sifted)
  unfolding swapped
  others-perm =
      Perm.trans (Perm.symm (swap-perm (x ∷ rest) 0 (length rest) (omega arith) (omega arith)))
        (Perm.trans (Perm.symm sifted-Sifted.perm) split)
    where
      others : List Buffer
      others = take (length rest) sifted

      split : Perm sifted (x ∷ others)
      split =
          subst (λ q. Perm q (x ∷ others))
            (take-append-last (length rest) sifted zero_buffer length-sifted)
            (subst (λ y. Perm (others ++ y ∷ []) (x ∷ others)) (sym last-sifted)
              (append-one-perm others x))

  -- Pop on a heap that is not empty gives its first buffer, which plays no later than any other,
  -- and leaves a heap of exactly the others.
  pub pop-IsHeap :
      ((pop (x ∷ rest)).0 ≡ x)
      × IsHeap (pop (x ∷ rest)).1
      × Perm (x ∷ rest) (x ∷ (pop (x ∷ rest)).1)
  unfolding pop sifted swapped
  pop-IsHeap = (last-sifted, others-IsHeap, others-perm)

item-mem : (q : List Buffer) (c : Buffer) → Memᴰ c q → (i : ℕ) × (i < length q) × (item q i ≡ c)
item-mem [] c m = elim m [ ]
item-mem (x ∷ q) c (Memᴰ.head e) = (0, omega arith, sym e)
item-mem (x ∷ q) c (Memᴰ.tail m) = let (i, p, at) = item-mem q c m in (suc i, omega arith, at)

-- The first buffer of a heap plays no later than any buffer in it.
pub head_least :
    (x : Buffer) (rest : List Buffer) (c : Buffer)
    → IsHeap (x ∷ rest)
    → Mem c (x ∷ rest)
    → x.play_at ≤ℤ c.play_at
head_least x rest c h m = ∥∥₁_elim m le_prop λ d.
    let (i, p, at) = item-mem (x ∷ rest) c d in
    subst (λ (b : Buffer). x.play_at ≤ℤ b.play_at) at
      (root_least (suc (length rest)) (x ∷ rest) i h p)

-- What Pop does to a queue `q` whose first buffer is `b`.
pub record Popped (b : Buffer) (q r : List Buffer) : Type 0 where
  pub heap : IsHeap r
  pub perm : Perm q (b ∷ r)
  pub least : (c : Buffer) → Mem c q → b.play_at ≤ℤ c.play_at
  pub size : length q ≡ suc (length r)

pub pop-Popped :
    (b : Buffer) (rest q : List Buffer) → q ≡ b ∷ rest → IsHeap q → Popped b q (pop q).1
pop-Popped b rest q e h =
    subst (λ (p : List Buffer). IsHeap p → Popped b p (pop p).1) (sym e)
      (λ hp.
        let (first, heap, perm) = pop-IsHeap b rest hp in
        record {
          heap = heap;
          perm = perm;
          least = λ c m. head_least b rest c hp m;
          size = length-perm perm;
        })
      h
