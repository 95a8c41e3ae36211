-- ===== src/Base/Dict.antt =====
-- Objects and Maps with keys of a type with equality: `{...m, [k]: v}`, `m.set(k, v)`, `m[k]`,
-- `m.delete(k)`.
use mathlib.Core.Path.{◌≡◌, refl}
use mathlib.Core.Option.{Option, none, some}
use mathlib.Core.List.{List, [], ◌∷◌}
use mathlib.Core.Logic.{◌≢◌}
use native.Mathlib.Omega.{arith}
use karya_kram.Base.Tests.{StrictEq, ◌==◌, if◌then◌else◌, beq_refl}

abbrev pub Dict {ℓ κ} : Type ℓ → Type κ → Type (ℓ ⊔ κ)
Dict K V = List (K × V)

module _ {ℓ κ} {K : Type ℓ} {V : Type κ} ⦃e : StrictEq K⦄ where
  unfoldable pub get : K → Dict K V → Option V
  get k [] = none
  get k ((j, v) ∷ m) = if j == k then some v else get k m

  unfoldable pub put : K → V → Dict K V → Dict K V
  put k v [] = (k, v) ∷ []
  put key value ((other, old) ∷ rest) =
      if other == key then (key, value) ∷ rest else (other, old) ∷ put key value rest

  unfoldable pub remove : K → Dict K V → Dict K V
  remove key [] = []
  remove key ((other, v) ∷ rest) =
      let left = remove key rest in if other == key then left else (other, v) ∷ left

  pub get-put :
      (k j : K) (v : V) (m : Dict K V) → get j (put k v m) ≡ (if k == j then some v else get j m)
  unfolding get put
  get-put k j v [] = refl
  get-put k j v ((i, w) ∷ m) =
      ground (arith, e.equals_iff k j, e.equals_iff i k, e.equals_iff i j, get-put k j v m)

  pub get-put_self : (k : K) (v : V) (m : Dict K V) → get k (put k v m) ≡ some v
  get-put_self k v m = ground (arith, get-put k k v m, beq_refl k)

  pub get-put_ne : (k j : K) (v : V) (m : Dict K V) → k ≢ j → get j (put k v m) ≡ get j m
  get-put_ne k j v m h = ground (arith, get-put k j v m, e.equals_iff k j)
