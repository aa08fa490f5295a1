-- ===== src/ClientDialer/Backoff.antt =====
-- The backoff of pkg/sendspin/client_dialer.go for every number of failures, shift and product
-- overflow included.
use native.Mathlib.Nat.{pow-suc}
use sendspin_go.Prelude.{
  sym, ℕ, zero, suc, ◌+◌, ◌-◌, ◌*◌, ◌%◌, ◌^◌, ◌≤◌, ◌<◌, ◌≡◌, refl, ap, ◌∙◌, inl, inr, Bool, true,
  false, ◌&&◌, arith, ltb, if◌then◌else◌, Bool-cases,
}
use sendspin_go.Prelude.Int.{ℤ, pos, eqb_ℤ, ◌*ℤ◌}
use sendspin_go.Prelude.Int64.{wrap64, mul64}
use sendspin_go.ClientDialer.{backoff_after}

-- 2^k is a multiple of 2^64 from k = 64 on.
pow-mod : (j : ℕ) → 2 ^ (64 + j) % 2 ^ 64 ≡ 0
pow-mod zero = refl
pow-mod (suc j) =
    let shift : 64 + suc j ≡ suc (64 + j) = omega arith in
    rw (ap (λ k. 2 ^ k) shift) (omega (arith, pow-mod j, pow-suc 2 (64 + j)))

shift_past_width : (k : ℕ) → 64 ≤ k → wrap64 (pos (2 ^ k)) ≡ pos 0
unfolding wrap64
shift_past_width k h =
    let e : k ≡ 64 + (k - 64) = omega arith in
    let zero_mod : 2 ^ k % 2 ^ 64 ≡ 0 = ap (λ n. 2 ^ n % 2 ^ 64) e ∙ pow-mod (k - 64) in
    ground (arith, zero_mod)

eq_of_eqb : (a b : ℤ) → eqb_ℤ a b ≡ true → a ≡ b
eq_of_eqb a b h = ground arith

seconds : ℕ → ℤ
seconds k = pos ((if ltb k 5 then 2 ^ k else 30) * 1_000_000_000)

-- Whether the cooldown after failure `k + 1` is the one described.
as_described : ℕ → Bool
unfolding seconds
as_described k = eqb_ℤ (backoff_after (pos 1_000_000_000) (pos 30_000_000_000) (suc k)) (seconds k)

-- As many of them as the first argument says, from the second on.
stretch : ℕ → ℕ → Bool
stretch zero from = true
stretch (suc rounds) from = as_described from && stretch rounds (suc from)

inside_stretch :
    (rounds from k : ℕ)
    → stretch rounds from ≡ true
    → from ≤ k
    → k < from + rounds
    → as_described k ≡ true
unfolding stretch
inside_stretch zero from k holds low high = absurd (omega arith)
inside_stretch (suc rounds) from k holds low high = elim (Bool-cases (ltb from k)) [
  | inl later ↦ inside_stretch rounds (suc from) k (ground arith) (ground arith) (omega arith)
  | inr here ↦ let same : from ≡ k = ground arith in ap as_described (sym same) ∙ ground arith
]

shifts_in_width : stretch 64 0 ≡ true
unfolding stretch as_described backoff_after mul64 wrap64 ◌*ℤ◌ seconds
shifts_in_width = refl

mul_zero : mul64 (pos 1_000_000_000) (pos 0) ≡ pos 0
unfolding mul64 wrap64 ◌*ℤ◌
mul_zero = refl

backoff_past_width :
    (k : ℕ) → 64 ≤ k → backoff_after (pos 1_000_000_000) (pos 30_000_000_000) (suc k) ≡ seconds k
unfolding backoff_after seconds
backoff_past_width k h =
    let down : suc k - 1 ≡ k = omega arith in
    let shift = ap (λ n. wrap64 (pos (2 ^ n))) down ∙ shift_past_width k h in
    let product = ap (mul64 (pos 1_000_000_000)) shift ∙ mul_zero in
    let long : ltb k 5 ≡ false = ground arith in rw (product, long)

-- With the dialer's base of one second and cap of thirty, the cooldown after the (k + 1)-th failure
-- in a row is 2^k seconds for k below 5 and thirty seconds from then on, however many failures there
-- are: neither the shift nor the product, both of which overflow for large k, shortens it.
pub backoff_after_lem :
    (k : ℕ)
    → backoff_after (pos 1_000_000_000) (pos 30_000_000_000) (suc k)
      ≡ pos ((if ltb k 5 then 2 ^ k else 30) * 1_000_000_000)
unfolding seconds as_described
backoff_after_lem k = elim (Bool-cases (ltb k 64)) [
  | inl small ↦ eq_of_eqb _ _ (inside_stretch 64 0 k shifts_in_width (omega arith) (ground arith))
  | inr large ↦ backoff_past_width k (ground arith)
]
