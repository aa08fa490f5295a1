-- ===== src/Prelude/Search.antt =====
-- sort.Search of Go's standard library: binary search for the least index at which a test holds.
use sendspin_go.Prelude.Tests.{Bool-cases, ltb}
use mathlib.Core.Path.{◌≡◌}
use mathlib.Core.Bool.{Bool, true, false}
use mathlib.Core.Logic.{inl, inr}
use Prim.Native.Nat.{ℕ, zero, suc, ◌+◌, ◌/◌, ◌≤◌, ◌<◌}
use native.Mathlib.Decide.{dec_lt}
use native.Mathlib.Omega.{arith}

-- The loop, with the rounds left; `j - i` rounds are enough.
unfoldable pub search_loop : ℕ → (ℕ → Bool) → ℕ → ℕ → ℕ
search_loop zero f i j = i
search_loop (suc k) f i j = elim (ltb i j) [
  | false ↦ i
  | true ↦ elim (f ((i + j) / 2)) [
    | false ↦ search_loop k f ((i + j) / 2 + 1) j
    | true ↦ search_loop k f i ((i + j) / 2)
  ]
]

unfoldable pub search : ℕ → (ℕ → Bool) → ℕ
unfolding search_loop
search n f = search_loop n f 0 n

abbrev pub IsMonotone : (ℕ → Bool) → ℕ → Type 0
IsMonotone f n = (i j : ℕ) → i ≤ j → j < n → f i ≡ true → f j ≡ true

-- The least index below `n` at which the test holds, or `n`.
pub record IsFirst (f : ℕ → Bool) (n i : ℕ) : Type 0 where
  pub inside : i ≤ n
  pub before : (j : ℕ) → j < i → f j ≡ false
  pub at : i < n → f i ≡ true

search_loop-IsFirst :
    (k : ℕ) (f : ℕ → Bool) (n i j : ℕ)
    → IsMonotone f n
    → i ≤ j
    → j ≤ n
    → j ≤ i + k
    → ((m : ℕ) → m < i → f m ≡ false)
    → (j < n → f j ≡ true)
    → IsFirst f n (search_loop k f i j)
unfolding search_loop
search_loop-IsFirst zero f n i j mono le top enough low high =
    let e : i ≡ j = omega arith in
    record { inside = omega arith; before = low; at = λ p. rw e (high (omega arith)) }
search_loop-IsFirst (suc k) f n i j mono le top enough low high = elim (dec_lt i j) [
  | no q ↦
      let e : i ≡ j = omega arith in
      let stop : search_loop (suc k) f i j ≡ i = ground arith in
      rw stop (record { inside = omega arith; before = low; at = λ p. rw e (high (omega arith)) })
  | yes q ↦
      let h = (i + j) / 2 in
      elim (Bool-cases (f h)) [
        | inl t ↦
            let goes : search_loop (suc k) f i j ≡ search_loop k f i h = ground (arith, t) in
            rw goes (
              search_loop-IsFirst k f n i h mono (omega arith) (omega arith) (omega arith) low
                (λ p. t))
        | inr t ↦
            let goes : search_loop (suc k) f i j ≡ search_loop k f (h + 1) j = ground (arith, t) in
            rw goes (
              search_loop-IsFirst k f n (h + 1) j mono (omega arith) top (omega arith)
                (λ m p. elim (Bool-cases (f m)) [
                  | inr e ↦ e
                  | inl e ↦ absurd (ground (arith, t, mono m h (omega arith) (omega arith) e))
                ])
                high)
      ]
]

pub search-IsFirst : (n : ℕ) (f : ℕ → Bool) → IsMonotone f n → IsFirst f n (search n f)
unfolding search
search-IsFirst n f mono =
    search_loop-IsFirst n f n 0 n mono (omega arith) (omega arith) (omega arith)
      (λ m p. absurd (omega arith)) (λ p. absurd (omega arith))
