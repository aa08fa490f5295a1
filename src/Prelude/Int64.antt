-- ===== src/Prelude/Int64.antt =====
-- Go's int64 (and int, on the 64-bit platforms that the program is built for): an integer between
-- -2^63 and 2^63 - 1, with the wrap-around of each operation written out.
use sendspin_go.Prelude.Tests.{ltb, if◌then◌else◌}
use sendspin_go.Prelude.Int.{ℤ, pos, negsuc, pos_part, neg_part, ◌+ℤ◌, ◌-ℤ◌, ◌*ℤ◌, ◌≤ℤ◌}
use Prim.Native.Nat.{ℕ, ◌+◌, ◌-◌, ◌%◌, ◌^◌, ◌<◌}
use mathlib.Core.Path.{◌≡◌}
use native.Mathlib.Omega.{arith}

-- The bit pattern of an integer, as `uint64(x)` gives it.
unfoldable pub to_u64 : ℤ → ℕ
to_u64 z = (pos_part z + (2 ^ 64 - neg_part z % 2 ^ 64)) % 2 ^ 64

-- The integer of a bit pattern below 2^64, as `int64(u)` gives it.
unfoldable pub of_u64 : ℕ → ℤ
of_u64 u = if ltb u (2 ^ 63) then pos u else negsuc (2 ^ 64 - u - 1)

unfoldable pub wrap64 : ℤ → ℤ
unfolding to_u64 of_u64
wrap64 z = of_u64 (to_u64 z)

unfoldable pub add64 : ℤ → ℤ → ℤ
add64 a b = wrap64 (a +ℤ b)

unfoldable pub sub64 : ℤ → ℤ → ℤ
sub64 a b = wrap64 (a -ℤ b)

unfoldable pub mul64 : ℤ → ℤ → ℤ
mul64 a b = wrap64 (a *ℤ b)

abbrev pub max_int64 : ℤ
max_int64 = pos (2 ^ 63 - 1)

abbrev pub min_int64 : ℤ
min_int64 = negsuc (2 ^ 63 - 1)

pub record IsInt64 (z : ℤ) : Type 0 where
  pub lower : min_int64 ≤ℤ z
  pub upper : z ≤ℤ max_int64

pub wrap64-IsInt64 : (z : ℤ) → IsInt64 (wrap64 z)
unfolding wrap64
wrap64-IsInt64 z = ground arith

pub wrap64-eq : (z : ℤ) → IsInt64 z → wrap64 z ≡ z
unfolding wrap64
wrap64-eq z h = ground arith

pub of_u64-to_u64 : (z : ℤ) → IsInt64 z → of_u64 (to_u64 z) ≡ z
unfolding of_u64 to_u64
of_u64-to_u64 z h = ground arith

pub to_u64-lt : (z : ℤ) → to_u64 z < 2 ^ 64
unfolding to_u64
to_u64-lt z = omega arith

-- Where the true sum or difference fits, the machine gives it.
pub add64-eq : (a b : ℤ) → IsInt64 (a +ℤ b) → add64 a b ≡ a +ℤ b
unfolding add64
add64-eq a b h = wrap64-eq (a +ℤ b) h

pub sub64-eq : (a b : ℤ) → IsInt64 (a -ℤ b) → sub64 a b ≡ a -ℤ b
unfolding sub64
sub64-eq a b h = wrap64-eq (a -ℤ b) h

-- Sums that wrap in between are the wrapped sum.
pub add64-wrap64 : (a b : ℤ) → add64 (wrap64 a) b ≡ wrap64 (a +ℤ b)
unfolding add64 wrap64 ◌+ℤ◌
add64-wrap64 a b = ground arith

pub sub64-wrap64 : (a b : ℤ) → sub64 (wrap64 (a +ℤ b)) a ≡ wrap64 b
unfolding sub64 wrap64 ◌+ℤ◌ ◌-ℤ◌
sub64-wrap64 a b = ground arith
