-- ===== src/Prelude/Array.antt =====
-- Writes and exchanges in a list used as an array, with the multiset of its entries.
use mathlib.Core.Logic.{∥∥₁_elim}
use native.Mathlib.Nat.{ℕ_set}
use mathlib.Core.List.{Perm, Permᴰ}
use mathlib.Core.List.Perm
use mathlib.Core.Path.{◌≡◌, refl, ap, ◌∙◌}
use mathlib.Core.List.{List, [], ◌∷◌, ◌++◌}
use Prim.Native.Nat.{ℕ, zero, suc, ◌<◌}
use native.Mathlib.Omega.{arith}
use sendspin_go.Prelude.Tests.{◌==◌, if◌then◌else◌}
use sendspin_go.Prelude.Lists.{length, get_or, set, take, length-set}

module _ {ℓ} {A : Type ℓ} where
  pub get_or-set :
      (a : List A) (i j : ℕ) (v d : A)
      → i < length a
      → get_or (set a i v) j d ≡ (if i == j then v else get_or a j d)
  get_or-set [] i j v d h = absurd (omega arith)
  get_or-set (x ∷ a) zero zero v d h = refl
  get_or-set (x ∷ a) zero (suc j) v d h = ground arith
  get_or-set (x ∷ a) (suc i) zero v d h = ground arith
  get_or-set (x ∷ a) (suc i) (suc j) v d h = ground (arith, get_or-set a i j v d)

  pub get_or-take :
      (n : ℕ) (a : List A) (i : ℕ) (d : A) → i < n → get_or (take n a) i d ≡ get_or a i d
  get_or-take zero a i d h = absurd (omega arith)
  get_or-take (suc n) [] i d h = refl
  get_or-take (suc n) (x ∷ a) zero d h = refl
  get_or-take (suc n) (x ∷ a) (suc i) d h = get_or-take n a i d (omega arith)

  -- A list is its first entries and its last one.
  pub take-append-last :
      (n : ℕ) (a : List A) (d : A) → length a ≡ suc n → take n a ++ get_or a n d ∷ [] ≡ a
  take-append-last n [] d h = absurd (omega arith)
  take-append-last zero (x ∷ []) d h = refl
  take-append-last zero (x ∷ y ∷ a) d h = absurd (omega arith)
  take-append-last (suc n) (x ∷ a) d h = ap (◌∷◌ x) (take-append-last n a d (omega arith))

  -- A write trades the old entry for the new one.
  set-perm : (a : List A) (i : ℕ) (v d : A) → i < length a → Perm (get_or a i d ∷ set a i v) (v ∷ a)
  set-perm [] i v d h = absurd (omega arith)
  set-perm (x ∷ a) zero v d h = Perm.swap v x a
  set-perm (x ∷ a) (suc i) v d h =
      Perm.trans (Perm.swap x _ _)
        (Perm.trans (Perm.cons x (set-perm a i v d (omega arith))) (Perm.swap v x a))

  -- `a[i], a[j] = a[j], a[i]`
  unfoldable pub exchange : List A → ℕ → ℕ → A → List A
  exchange a i j d = set (set a i (get_or a j d)) j (get_or a i d)

  pub length-exchange : (a : List A) (i j : ℕ) (d : A) → length (exchange a i j d) ≡ length a
  unfolding exchange
  length-exchange a i j d = length-set _ j _ ∙ length-set a i _

  module _ (a : List A) (i j : ℕ) (d : A) (hi : i < length a) (hj : j < length a) where
    pub get_or-exchange :
        (c : ℕ)
        → get_or (exchange a i j d) c d
          ≡ (if j == c then get_or a i d else if i == c then get_or a j d else get_or a c d)
    unfolding exchange
    get_or-exchange c = rw (
      get_or-set (set a i (get_or a j d)) j c (get_or a i d) d (rw length-set hj),
      get_or-set a i c (get_or a j d) d hi,
    )

    pub exchange-perm : Perm (exchange a i j d) a
    unfolding exchange
    exchange-perm =
        let b = set a i (get_or a j d) in
        let kept : get_or b j d ≡ get_or a j d =
          ground (arith, get_or-set a i j (get_or a j d) d) in
        let second = rw kept at (set-perm b j (get_or a i d) d (rw length-set hj)) in
        Perm.cons_inv (Perm.trans second (set-perm a i (get_or a j d) d hi))

  pub append-one-perm : (a : List A) (x : A) → Perm (a ++ x ∷ []) (x ∷ a)
  append-one-perm [] x = Perm.refl (x ∷ [])
  append-one-perm (y ∷ a) x = Perm.trans (Perm.cons y (append-one-perm a x)) (Perm.swap x y a)

  length-permᴰ : {a b : List A} → Permᴰ a b → length a ≡ length b
  length-permᴰ Permᴰ.nil = refl
  length-permᴰ (Permᴰ.cons _ p) = ap suc (length-permᴰ p)
  length-permᴰ (Permᴰ.swap _ _) = refl
  length-permᴰ (Permᴰ.trans p q) = length-permᴰ p ∙ length-permᴰ q

  pub length-perm : {a b : List A} → Perm a b → length a ≡ length b
  length-perm p = ∥∥₁_elim p (ℕ_set _ _) length-permᴰ
