-- ===== src/Base/Lists.antt =====
-- Lists measured and indexed by native numbers, and walked by Boolean tests.
use Prim.Native.Nat.{ℕ, zero, suc, ◌+◌, ◌≤◌, ◌<◌}
use mathlib.Core.Path.{◌≡◌, refl}
use mathlib.Core.Logic.{◌⊎◌, inl, inr}
use mathlib.Core.Bool.{Bool, true, false, ◌||◌}
use mathlib.Core.Option.{Option, none, some}
use mathlib.Core.List.{List, [], ◌∷◌, ◌++◌}
use native.Mathlib.Omega.{arith}
use karya_kram.Base.Tests.{if◌then◌else◌, Bool-cases}

module _ {ℓ} {A : Type ℓ} where
  abbrev pub length : List A → ℕ
  length [] = 0
  length (x ∷ xs) = suc (length xs)

  abbrev pub get_elem? : List A → ℕ → Option A
  get_elem? [] i = none
  get_elem? (x ∷ xs) zero = some x
  get_elem? (x ∷ xs) (suc i) = get_elem? xs i

  abbrev pub take : ℕ → List A → List A
  take zero xs = []
  take (suc n) [] = []
  take (suc n) (x ∷ xs) = x ∷ take n xs

  -- Array.prototype.filter, find and some, over a Boolean test.
  abbrev pub select : (A → Bool) → List A → List A
  select p [] = []
  select p (x ∷ xs) = let rest = select p xs in if p x then x ∷ rest else rest

  abbrev pub find : (A → Bool) → List A → Option A
  find p [] = none
  find p (x ∷ xs) = if p x then some x else find p xs

  abbrev pub any : (A → Bool) → List A → Bool
  any p [] = false
  any p (x ∷ xs) = p x || any p xs

  abbrev pub All {κ} : (A → Type κ) → List A → Type κ
  All P [] = Unit
  All P (x ∷ xs) = P x × All P xs

module _ {ℓ} {A : Type ℓ} where
  pub length-append : (xs ys : List A) → length (xs ++ ys) ≡ length xs + length ys
  length-append [] ys = omega arith
  length-append (x ∷ xs) ys = omega (arith, length-append xs ys)

  pub All-append {κ} :
      (P : A → Type κ) (front back : List A) → All P front → All P back → All P (front ++ back)
  All-append P [] back left right = right
  All-append P (a ∷ front) back (p, left) right = (p, All-append P front back left right)

  pub select-append :
      (p : A → Bool) (xs ys : List A) → select p (xs ++ ys) ≡ select p xs ++ select p ys
  select-append p [] ys = refl
  select-append p (x ∷ xs) ys = ground (arith, select-append p xs ys)

  pub any-append : (p : A → Bool) (xs ys : List A) → any p (xs ++ ys) ≡ (any p xs || any p ys)
  any-append p [] ys = refl
  any-append p (x ∷ xs) ys = ground (arith, any-append p xs ys)

  pub length-take-le : (n : ℕ) (xs : List A) → length (take n xs) ≤ n
  length-take-le zero xs = omega arith
  length-take-le (suc n) [] = omega arith
  length-take-le (suc n) (x ∷ xs) = omega (arith, length-take-le n xs)

  -- An index is out of range exactly when the look-up gives nothing.
  pub get_elem?-none : (xs : List A) (i : ℕ) → get_elem? xs i ≡ none → length xs ≤ i
  get_elem?-none [] i h = omega arith
  get_elem?-none (x ∷ xs) zero h = cc
  get_elem?-none (x ∷ xs) (suc i) h = omega (arith, get_elem?-none xs i h)

  pub get_elem?-some : (xs : List A) (i : ℕ) {a : A} → get_elem? xs i ≡ some a → i < length xs
  get_elem?-some [] i h = cc
  get_elem?-some (x ∷ xs) zero h = omega arith
  get_elem?-some (x ∷ xs) (suc i) h = omega (arith, get_elem?-some xs i h)

  pub get_elem?-append_left :
      (xs ys : List A) (i : ℕ) {a : A} → get_elem? xs i ≡ some a → get_elem? (xs ++ ys) i ≡ some a
  get_elem?-append_left [] ys i h = cc
  get_elem?-append_left (x ∷ xs) ys zero h = h
  get_elem?-append_left (x ∷ xs) ys (suc i) h = get_elem?-append_left xs ys i h

  pub get_elem?-cases :
      (xs : List A) (i : ℕ)
      → ((get_elem? xs i ≡ none) × (length xs ≤ i))
        ⊎ ((a : A) × (get_elem? xs i ≡ some a) × (i < length xs))
  get_elem?-cases [] i = inl (refl, omega arith)
  get_elem?-cases (x ∷ xs) zero = inr (x, refl, omega arith)
  get_elem?-cases (x ∷ xs) (suc i) = elim (get_elem?-cases xs i) [
    | inl (e, h) ↦ inl (e, omega arith)
    | inr (a, e, h) ↦ inr (a, e, omega arith)
  ]

  pub All-of {κ} : {P : A → Type κ} → ((a : A) → P a) → (xs : List A) → All P xs
  All-of h [] = tt
  All-of h (x ∷ xs) = (h x, All-of h xs)

  pub All-map {κ μ} :
      {P : A → Type κ} {Q : A → Type μ}
      → ((a : A) → P a → Q a)
      → (xs : List A) → All P xs
      → All Q xs
  All-map h [] all = tt
  All-map h (x ∷ xs) all = (h x all.0, All-map h xs all.1)

  pub All-map₂ {κ μ ν} :
      {P : A → Type κ} {Q : A → Type μ} {R : A → Type ν}
      → ((a : A) → P a → Q a → R a)
      → (xs : List A) → All P xs
      → All Q xs
      → All R xs
  All-map₂ h [] ps qs = tt
  All-map₂ h (x ∷ xs) ps qs = (h x ps.0 qs.0, All-map₂ h xs ps.1 qs.1)

  pub select-none : (p : A → Bool) (xs : List A) → any p xs ≡ false → select p xs ≡ []
  select-none p [] h = refl
  select-none p (x ∷ xs) h = ground (arith, select-none p xs)

  pub any-All : (p : A → Bool) (xs : List A) → any p xs ≡ false → All (λ x. p x ≡ false) xs
  any-All p [] h = tt
  any-All p (x ∷ xs) h = (ground arith, any-All p xs (ground arith))

  -- Some element passes, so what each that passes proves holds.
  pub any-elim {κ} :
      {C : Type κ} (p : A → Bool) (xs : List A) → any p xs ≡ true → All (λ x. p x ≡ true → C) xs → C
  any-elim p [] h all = cc
  any-elim p (x ∷ xs) h all = elim (Bool-cases (p x)) [
    | inl e ↦ all.0 e
    | inr e ↦ any-elim p xs (ground arith) all.1
  ]
