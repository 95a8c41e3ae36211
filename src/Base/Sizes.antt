-- ===== src/Base/Sizes.antt =====
-- The sizes of maps.
use Prim.Native.Nat.{suc, ◌≤◌, ◌<◌}
use mathlib.Core.Path.{◌≡◌}
use mathlib.Core.Option.{some}
use mathlib.Core.List.{[], ◌∷◌}
use native.Mathlib.Omega.{arith}
use karya_kram.Base.Tests.{StrictEq}
use karya_kram.Base.Lists.{length}
use karya_kram.Base.Dict.{Dict, get, put, remove}

module _ {ℓ κ} {K : Type ℓ} {V : Type κ} ⦃e : StrictEq K⦄ where
  pub length-remove-le : (k : K) (m : Dict K V) → length (remove k m) ≤ length m
  unfolding remove
  length-remove-le k [] = omega arith
  length-remove-le k ((j, v) ∷ m) = ground (arith, length-remove-le k m)

  pub length-remove :
      (k : K) (m : Dict K V) (v : V) → get k m ≡ some v → length (remove k m) < length m
  unfolding remove get
  length-remove k [] v h = cc
  length-remove k ((j, w) ∷ m) v h = ground (arith, length-remove k m v, length-remove-le k m)

  pub length-put-le : (k : K) (v : V) (m : Dict K V) → length (put k v m) ≤ suc (length m)
  unfolding put
  length-put-le k v [] = omega arith
  length-put-le k v ((j, w) ∷ m) = ground (arith, length-put-le k v m)

  pub length-put :
      (k : K) (v : V) (m : Dict K V) (w : V) → get k m ≡ some w → length (put k v m) ≡ length m
  unfolding put get
  length-put k v [] w h = cc
  length-put k v ((j, u) ∷ m) w h = ground (arith, length-put k v m w)
