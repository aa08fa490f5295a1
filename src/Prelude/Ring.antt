-- ===== src/Prelude/Ring.antt =====
-- A list used as a ring: the entries from a head on, going round at the end of the list. The last
-- argument of `get_or` is never read where the ring has entries.
use native.Mathlib.Nat.{mod-add-mod, mod-eq_of_lt, mod-eq-sub-mod}
use native.Mathlib.Decide.{dec_lt}
use mathlib.Core.Path.{◌≡◌, refl, sym, ap, ap₂, ◌∙◌}
use mathlib.Core.Logic.{◌≢◌}
use mathlib.Core.List.{List, [], ◌∷◌, ◌++◌}
use Prim.Native.Nat.{ℕ, zero, suc, ◌+◌, ◌-◌, ◌%◌, ◌<◌}
use native.Mathlib.Omega.{arith}
use sendspin_go.Prelude.Lists.{length, get_or, set, get_or-set_self, get_or-set_ne, length-set}

module _ {ℓ} {A : Type ℓ} where
  -- The entry `j` places past the head.
  abbrev pub entry : A → List A → ℕ → ℕ → A
  entry d ring h j = get_or ring ((h + j) % length ring) d

  -- The `n` entries from place `j` on.
  abbrev pub window : A → List A → ℕ → ℕ → ℕ → List A
  window d ring h j zero = []
  window d ring h j (suc n) = entry d ring h j ∷ window d ring h (j + 1) n

-- Two places of a ring less than a round apart are different.
pub add-mod-ne : (L h m n : ℕ) → h < L → m < n → n < L → (h + m) % L ≢ (h + n) % L
add-mod-ne L h m n hh hm hn = elim (dec_lt (h + m) L) [
  | yes p ↦ elim (dec_lt (h + n) L) [
    | yes q ↦ omega (arith, mod-eq_of_lt p, mod-eq_of_lt q)
    | no q ↦ omega (
      arith,
      mod-eq_of_lt p,
      mod-eq-sub-mod {n = h + n} {m = L} (omega arith),
      mod-eq_of_lt {n = h + n - L} {m = L} (omega arith),
    )
  ]
  | no p ↦ omega (
    arith,
    mod-eq-sub-mod {n = h + m} {m = L} (omega arith),
    mod-eq_of_lt {n = h + m - L} {m = L} (omega arith),
    mod-eq-sub-mod {n = h + n} {m = L} (omega arith),
    mod-eq_of_lt {n = h + n - L} {m = L} (omega arith),
  )
]

module _ {ℓ} {A : Type ℓ} (d : A) where
  -- Two windows with the same entries are the same list.
  pub window_ext :
      (r s : List A) (h k i j n : ℕ)
      → ((m : ℕ) → m < n → entry d r h (i + m) ≡ entry d s k (j + m))
      → window d r h i n ≡ window d s k j n
  window_ext r s h k i j zero same = refl
  window_ext r s h k i j (suc n) same =
      ap₂ ◌∷◌ (ap (entry d r h) (at i) ∙ same 0 (omega arith) ∙ ap (entry d s k) (sym (at j))) (
        window_ext r s h k (i + 1) (j + 1) n λ m p.
          ap (entry d r h) (shift i m)
          ∙ same (suc m) (omega arith)
          ∙ ap (entry d s k) (sym (shift j m)))
    where
      at : (a : ℕ) → a ≡ a + 0
      at a = omega arith

      shift : (a b : ℕ) → a + 1 + b ≡ a + suc b
      shift a b = omega arith

  -- The last entry of a window stands apart.
  pub window-suc :
      (r : List A) (h j n : ℕ)
      → window d r h j (suc n) ≡ window d r h j n ++ entry d r h (j + n) ∷ []
  window-suc r h j zero = ap (λ i. entry d r h i ∷ []) (omega arith)
  window-suc r h j (suc n) = ap (◌∷◌ (entry d r h j)) (
      window-suc r h (j + 1) n
      ∙ ap (λ i. window d r h (j + 1) n ++ entry d r h i ∷ []) (omega arith))

  -- Advancing the head by one place is the same as looking one place further.
  pub window-head : (r : List A) (h n : ℕ) → window d r h 1 n ≡ window d r ((h + 1) % length r) 0 n
  window-head r h n =
      window_ext r r h ((h + 1) % length r) 1 0 n
        λ m p. ap (λ i. get_or r i d) (rw mod-add-mod (ap (λ i. i % length r) (omega arith)))

  pub length-window : (r : List A) (h j n : ℕ) → length (window d r h j n) ≡ n
  length-window r h j zero = refl
  length-window r h j (suc n) = ap suc (length-window r h (j + 1) n)

  -- A write just past the last entry appends to the window.
  pub window-set :
      (r : List A) (h n : ℕ) (v : A)
      → h < length r
      → n < length r
      → window d (set r ((h + n) % length r) v) h 0 (suc n) ≡ window d r h 0 n ++ v ∷ []
  window-set r h n v hh hn =
      let s = set r ((h + n) % length r) v in
      let size = length-set r ((h + n) % length r) v in
      let kept = window_ext s r h h 0 0 n λ m p.
        let z : 0 + m ≡ m = omega arith in
        rw z (
          ap (λ L. get_or s ((h + m) % L) d) size
          ∙ get_or-set_ne r v d (λ e. add-mod-ne (length r) h m n hh p hn (sym e))) in
      let last : entry d s h (0 + n) ≡ v =
        ap (entry d s h) {y = n} (omega arith)
        ∙ ap (λ L. get_or s ((h + n) % L) d) size
        ∙ get_or-set_self r ((h + n) % length r) v d (omega arith) in
      window-suc s h 0 n ∙ ap₂ (λ a b. a ++ b ∷ []) kept last
