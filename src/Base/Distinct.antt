-- ===== src/Base/Distinct.antt =====
-- Maps that hold each key once.
use Prim.Native.Nat.{suc, ◌≤◌}
use mathlib.Core.Path.{◌≡◌, refl, subst, ◌∙◌}
use mathlib.Core.Option.{none}
use mathlib.Core.List.{[], ◌∷◌}
use native.Mathlib.Omega.{arith}
use karya_kram.Base.Tests.{StrictEq, ◌==◌, Bool-cases}
use mathlib.Core.Logic.{inl, inr}
use karya_kram.Base.Lists.{length}
use karya_kram.Base.Dict.{Dict, get, put, remove, get-put}

module _ {K : Type 0} {V : Type 0} ⦃e : StrictEq K⦄ where
  abbrev pub Distinct : Dict K V → Type 0
  Distinct [] = Unit
  Distinct ((k, v) ∷ m) = (get k m ≡ none) × Distinct m

  pub length-put_new :
      (k : K) (v : V) (m : Dict K V) → get k m ≡ none → length (put k v m) ≡ suc (length m)
  unfolding put get
  length-put_new k v [] h = refl
  length-put_new k v ((j, w) ∷ m) h = ground (arith, length-put_new k v m)

  remove-absent : (k : K) (m : Dict K V) → get k m ≡ none → remove k m ≡ m
  unfolding remove get
  remove-absent k [] h = refl
  remove-absent k ((j, w) ∷ m) h = ground (arith, remove-absent k m)

  get-remove-none : (k j : K) (m : Dict K V) → get j m ≡ none → get j (remove k m) ≡ none
  unfolding remove get
  get-remove-none k j [] h = refl
  get-remove-none k j ((i, w) ∷ m) h = ground (arith, get-remove-none k j m)

  pub Distinct-put : (k : K) (v : V) (m : Dict K V) → Distinct m → Distinct (put k v m)
  unfolding put get
  Distinct-put k v [] d = (refl, tt)
  Distinct-put k v ((j, w) ∷ m) d = elim (Bool-cases (j == k)) [
    | inl q ↦
        let same : j ≡ k = ground (arith, e.equals_iff j k) in
        rw q (subst (λ i. get i m ≡ none) same d.0, d.1)
    | inr q ↦ rw q (
      get-put k j v m ∙ ground (arith, d.0, e.equals_iff k j, e.equals_iff j k),
      Distinct-put k v m d.1,
    )
  ]

  pub Distinct-remove : (k : K) (m : Dict K V) → Distinct m → Distinct (remove k m)
  unfolding remove
  Distinct-remove k [] d = tt
  Distinct-remove k ((j, w) ∷ m) d = elim (Bool-cases (j == k)) [
    | inl q ↦ rw q (Distinct-remove k m d.1)
    | inr q ↦ rw q (get-remove-none k j m d.0, Distinct-remove k m d.1)
  ]

  pub length-remove-Distinct :
      (k : K) (m : Dict K V) → Distinct m → length m ≤ suc (length (remove k m))
  unfolding remove
  length-remove-Distinct k [] d = omega arith
  length-remove-Distinct k ((j, w) ∷ m) d = elim (Bool-cases (j == k)) [
    | inl q ↦
        let same : j ≡ k = ground (arith, e.equals_iff j k) in
        let absent : get k m ≡ none = subst (λ i. get i m ≡ none) same d.0 in
        rw (q, remove-absent k m absent) (omega arith)
    | inr q ↦ rw q (omega (arith, length-remove-Distinct k m d.1))
  ]
