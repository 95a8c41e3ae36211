-- ===== src/Workflow/Amend.antt =====
-- Look-ups after an outcome has amended an entry of a state's map (workflow.ts).
use mathlib.Core.Option
use karya_kram.Base.{ℕ, ◌≡◌, refl, Option, none, some, arith, number_eq, ◌==◌, if◌then◌else◌}
use karya_kram.Base.Dict.{Dict, get, put, get-put}
use karya_kram.Workflow.State.{amend}

-- Only the entry at the given seq changes, and only if there is one.
pub get-amend :
    {V : Type 0} (k j : ℕ) (f : V → V) (m : Dict ℕ V)
    → get j (amend k f m) ≡ (if k == j then Option.map f (get k m) else get j m)
get-amend {V} k j f m = go (get k m) refl
  where
    go :
        (o : Option V)
        → get k m ≡ o
        → get j (elim o [ none ↦ m | some a ↦ put k (f a) m ])
          ≡ (if k == j then Option.map f o else get j m)
    go none e = ground arith
    go (some a) e = ground (arith, get-put k j (f a) m)
