-- ===== src/Queue/Invariant.antt =====
-- What holds of the `tasks` table between two queries (queue.ts, dlq.ts).
use karya_kram.Base.{
  ℕ, suc, ◌+◌, ◌≤◌, ◌<◌, ◌≡◌, String, Bool, true, false, not, ◌&&◌, Option, none, some, List, [],
  ◌∷◌, ◌++◌, arith, leb, All, Bool-cases, inl, inr,
}
use karya_kram.Queue.Task.{TaskStatus, leased, completed, Task, Tasks, update_where, count_where}
use karya_kram.Queue.Ops.{is_live_workflow_task}

abbrev is_set {ℓ} : {A : Type ℓ} → Option A → Bool
is_set none = false
is_set (some a) = true

-- A lease has an owner, a deadline and at least one attempt; what is not leased has no deadline.
abbrev lease_fits : TaskStatus → Option String → Option ℕ → ℕ → Bool
lease_fits leased owner deadline attempt = is_set owner && is_set deadline && leb 1 attempt
lease_fits completed owner deadline attempt = is_set owner
lease_fits _ owner deadline attempt = not (is_set owner) && not (is_set deadline)

abbrev pub Fits : Task → Type 0
Fits t = lease_fits t.status t.leased_by t.lease_expires_at t.attempt ≡ true

-- Ids rise from `lo` on and stay below `hi`.
abbrev pub Ascending : ℕ → List Task → ℕ → Type 0
Ascending lo [] hi = lo ≤ hi
Ascending lo (t ∷ ts) hi = (lo ≤ t.id) × Ascending (suc t.id) ts hi

pub record Inv (q : Tasks) : Type 0 where
  pub ids : Ascending 0 q.rows q.next_id
  pub leases : All Fits q.rows
  pub one_workflow_task : (wf : String) → count_where (is_live_workflow_task wf) q.rows ≤ 1

pub Ascending-bound : (lo hi : ℕ) (ts : List Task) → Ascending lo ts hi → lo ≤ hi
Ascending-bound lo hi [] h = h
Ascending-bound lo hi (t ∷ ts) h = omega (arith, Ascending-bound (suc t.id) hi ts h.1)

pub Ascending-above :
    (lo k hi : ℕ) (ts : List Task)
    → lo ≤ k
    → Ascending k ts hi
    → All (λ t. (lo ≤ t.id) × (t.id < hi)) ts
Ascending-above lo k hi [] le h = tt
Ascending-above lo k hi (t ∷ ts) le h = (
  (omega arith, Ascending-bound (suc t.id) hi ts h.1),
  Ascending-above lo (suc t.id) hi ts (omega arith) h.1,
)

pub Ascending-push :
    (lo hi : ℕ) (ts : List Task) (t : Task)
    → t.id ≡ hi
    → Ascending lo ts hi
    → Ascending lo (ts ++ t ∷ []) (hi + 1)
Ascending-push lo hi [] t e h = omega arith
Ascending-push lo hi (u ∷ ts) t e h = (h.0, Ascending-push (suc u.id) hi ts t e h.1)

pub Ascending-suc : (lo hi : ℕ) (ts : List Task) → Ascending lo ts hi → Ascending lo ts (hi + 1)
Ascending-suc lo hi [] h = omega arith
Ascending-suc lo hi (t ∷ ts) h = (h.0, Ascending-suc (suc t.id) hi ts h.1)

module _ (p : Task → Bool) (f : Task → Task) where
  pub Ascending-update_where :
      ((t : Task) → (f t).id ≡ t.id)
      → (lo hi : ℕ) (ts : List Task) → Ascending lo ts hi
      → Ascending lo (update_where p f ts) hi
  Ascending-update_where same lo hi [] h = h
  Ascending-update_where same lo hi (t ∷ ts) h = elim (Bool-cases (p t)) [
    | inl e ↦ rw (e, same t) (h.0, Ascending-update_where same (suc t.id) hi ts h.1)
    | inr e ↦ rw e (h.0, Ascending-update_where same (suc t.id) hi ts h.1)
  ]

  -- What holds of every row still does, if the update keeps it where it applies.
  pub All-update_where {κ} :
      (P : Task → Type κ) (ts : List Task)
      → All P ts
      → All (λ t. p t ≡ true → P t → P (f t)) ts
      → All P (update_where p f ts)
  All-update_where P [] h keep = tt
  All-update_where P (t ∷ ts) h keep = elim (Bool-cases (p t)) [
    | inl e ↦ rw e (keep.0 e h.0, All-update_where P ts h.1 keep.1)
    | inr e ↦ rw e (h.0, All-update_where P ts h.1 keep.1)
  ]

  -- No more rows pass a test than before, if the update brings none to it.
  pub count_where-update_where :
      (r : Task → Bool) (ts : List Task)
      → All (λ t. p t ≡ true → r (f t) ≡ true → r t ≡ true) ts
      → count_where r (update_where p f ts) ≤ count_where r ts
  count_where-update_where r [] keep = omega arith
  count_where-update_where r (t ∷ ts) keep =
      ground (arith, count_where-update_where r ts keep.1, keep.0)
