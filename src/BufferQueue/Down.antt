-- ===== src/BufferQueue/Down.antt =====
-- heap.down on the BufferQueue of pkg/sendspin/scheduler.go restores the heap order.
use mathlib.Core.List.{Perm}
use mathlib.Core.List.Perm
use sendspin_go.Prelude.{
  ℕ, zero, suc, ◌+◌, ◌-◌, ◌*◌, ◌≤◌, ◌<◌, ◌≡◌, ◌≢◌, refl, ◌∙◌, ◌&&◌, List, inl, inr, ◌⊎◌, arith,
  length, leb, ltb, ◌==◌, if◌then◌else◌, Bool-cases,
}
use sendspin_go.Prelude.Int.{◌≤ℤ◌, ◌<ℤ◌}
use sendspin_go.Audio.{Buffer}
use sendspin_go.BufferQueue.{item, less, swap, parent, down}
use sendspin_go.BufferQueue.Order.{key, IsHeapTo, less-eq, item-swap, swap-perm, length-swap}

-- Among the first `n` entries only the edges below `i` may be out of order.
pub record DownInv (n : ℕ) (q : List Buffer) (i : ℕ) : Type 0 where
  pub within : n ≤ length q
  pub edges : (c : ℕ) → 0 < c → c < n → parent c ≢ i → key q (parent c) ≤ℤ key q c
  pub bridged : (c : ℕ) → 0 < c → c < n → parent c ≡ i → 0 < i → key q (parent i) ≤ℤ key q c

-- The child that down compares with `i`.
abbrev pub child : ℕ → List Buffer → ℕ → ℕ
child n q i =
    if ltb (2 * i + 1 + 1) n && less q (2 * i + 1 + 1) (2 * i + 1) then 2 * i + 1 + 1 else 2 * i + 1

record IsEarliestChild (n : ℕ) (q : List Buffer) (i m : ℕ) : Type 0 where
  inside : m < n
  below : (m ≡ 2 * i + 1) ⊎ (m ≡ 2 * i + 1 + 1)
  least : (c : ℕ) → 0 < c → c < n → parent c ≡ i → key q m ≤ℤ key q c

children : (i c : ℕ) → 0 < c → parent c ≡ i → (c ≡ 2 * i + 1) ⊎ (c ≡ 2 * i + 1 + 1)
children i c a e = elim (Bool-cases (c == 2 * i + 1)) [
  | inl s ↦ inl (ground arith)
  | inr s ↦ inr (ground arith)
]

-- What down leaves: a heap of the same buffers, the entries from `n` on in their places.
pub record Sifted (n : ℕ) (q r : List Buffer) : Type 0 where
  pub heap : IsHeapTo n r
  pub perm : Perm r q
  pub size : length r ≡ length q
  pub beyond : (c : ℕ) → n ≤ c → item r c ≡ item q c

module _ (n : ℕ) (q : List Buffer) (i : ℕ) (v : DownInv n q i) (room : 2 * i + 1 < n) where
  child-IsEarliestChild : IsEarliestChild n q i (child n q i)
  child-IsEarliestChild = elim (Bool-cases (ltb (2 * i + 1 + 1) n)) [
    | inr one ↦ rw one (record {
      inside = room;
      below = inl refl;
      least = λ c a b e. let same : c ≡ 2 * i + 1 = ground arith in rw same (omega arith);
    })
    | inl two ↦
        let right : 2 * i + 1 + 1 < n = ground arith in
        let compared =
          less-eq q (2 * i + 1 + 1) (2 * i + 1) (omega (arith, v.within))
            (omega (arith, v.within)) in
        elim (Bool-cases (less q (2 * i + 1 + 1) (2 * i + 1))) [
          | inl earlier ↦
              rw (two, earlier)
                (record {
                  inside = right;
                  below = inr refl;
                  least = λ c a b e.
                      let ordered : key q (2 * i + 1 + 1) ≤ℤ key q (2 * i + 1) =
                        ground (arith, compared) in
                      elim (children i c a e) [ inl s ↦ rw s ordered | inr s ↦ rw s (omega arith) ];
                })
          | inr later ↦
              rw (two, later)
                (record {
                  inside = room;
                  below = inl refl;
                  least = λ c a b e.
                      let ordered : key q (2 * i + 1) ≤ℤ key q (2 * i + 1 + 1) =
                        ground (arith, compared) in
                      elim (children i c a e) [ inl s ↦ rw s (omega arith) | inr s ↦ rw s ordered ];
                })
        ]
  ]

module _ (n : ℕ) (q : List Buffer) (i m : ℕ) (v : DownInv n q i) (s : IsEarliestChild n q i m)
    (low : key q m <ℤ key q i) where
  swap-DownInv : DownInv n (swap q i m) m
  swap-DownInv =
      let size =
        length-swap q i m (omega (arith, s.below, s.inside, v.within))
          (omega (arith, s.inside, v.within)) in
      let at =
        item-swap q i m (omega (arith, s.below, s.inside, v.within))
          (omega (arith, s.inside, v.within)) in
      record {
        within = omega (arith, size, v.within);
        edges = λ c a b e.
            ground
              (arith, at c, at (parent c), v.edges c, v.bridged m, v.bridged c, s.least c, s.below);
        bridged = λ c a b e f. ground (arith, at c, at (parent m), v.edges c, s.below);
      }

-- Enough rounds turn the first `n` entries, one of them too late in the tree, into a heap.
pub down_restores :
    (k n : ℕ) (q : List Buffer) (i : ℕ) → n - i < k → DownInv n q i → Sifted n q (down k q i n)
unfolding down
down_restores zero n q i f v = absurd (omega arith)
down_restores (suc k) n q i f v = elim (Bool-cases (leb n (2 * i + 1))) [
  | inl leaf ↦ rw leaf (record {
    heap = λ c a b. v.edges c a b (ground arith);
    perm = Perm.refl q;
    size = refl;
    beyond = λ c h. refl;
  })
  | inr inner ↦
      let room : 2 * i + 1 < n = ground arith in
      let s = child-IsEarliestChild n q i v room in
      let hi : i < length q = omega (arith, v.within) in
      let hm : child n q i < length q = omega (arith, s.inside, v.within) in
      elim (Bool-cases (less q (child n q i) i)) [
        | inr settled ↦
            let ordered : key q i ≤ℤ key q (child n q i) =
              ground (arith, less-eq q (child n q i) i hm hi) in
            rw (inner, settled)
              (record {
                heap = λ c a b. ground (arith, v.edges c, s.least c);
                perm = Perm.refl q;
                size = refl;
                beyond = λ c h. refl;
              })
        | inl below ↦
            let low : key q (child n q i) <ℤ key q i =
              ground (arith, less-eq q (child n q i) i hm hi) in
            let r =
              down_restores k n (swap q i (child n q i)) (child n q i) (omega (arith, s.below))
                (swap-DownInv n q i (child n q i) v s low) in
            rw (inner, below)
              (record {
                heap = r.heap;
                perm = Perm.trans r.perm (swap-perm q i (child n q i) hi hm);
                size = r.size ∙ length-swap q i (child n q i) hi hm;
                beyond = λ c h.
                    r.beyond c h ∙ ground (arith, item-swap q i (child n q i) hi hm c, s.inside);
              })
      ]
]
