-- ===== src/Prelude/Map.antt =====
-- Go maps with string keys that are only read and written at a key: functions, with what a missing
-- key reads as.
use mathlib.Core.Path.{◌≡◌}
use mathlib.Core.Logic.{◌≢◌}
use sendspin_go.Prelude.Tests.{if◌then◌else◌}
use sendspin_go.Prelude.Text.{String, str_eq, eq_iff, eq_refl}
use native.Mathlib.Omega.{arith}

module _ {ℓ} {V : Type ℓ} where
  -- `m[k] = v`; `delete(m, k)` writes what a missing key reads as.
  unfoldable pub update : (String → V) → String → V → String → V
  update m k v j = if str_eq k j then v else m j

  pub update_self : (m : String → V) (k : String) (v : V) → update m k v k ≡ v
  unfolding update
  update_self m k v = rw (eq_refl k)

  pub update_ne : (m : String → V) (k j : String) (v : V) → k ≢ j → update m k v j ≡ m j
  unfolding update
  update_ne m k j v h = ground (arith, eq_iff k j)
