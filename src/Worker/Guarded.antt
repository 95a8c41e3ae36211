-- ===== src/Worker/Guarded.antt =====
-- An outcome that is appended under the lease (fencing.ts, `appendStepOutcome`).
use karya_kram.Base.{ℕ, ◌≡◌, String, false, Option, none, some, List, [], ◌∷◌, Bool-cases, inl, inr}
use karya_kram.Workflow.Events.{WorkflowEventPayload}
use karya_kram.Queue.Task.{Task}
use karya_kram.Queue.Preserve.{WhenSome}
use karya_kram.Store.Events.{Db, AppendEventsResult, append_events}
use karya_kram.Worker.Fencing.{
  has_step_outcome, owns_lease, appending, append_step_outcome, after_append,
}

-- A guarded append keeps what an append keeps.
pub recorded-P :
    (P : Db → Type 0) (now : ℕ) (trace : Option String) (task : Task) (seq : ℕ)
    (event : WorkflowEventPayload) (types : List String) (db : Db)
    → P db
    → (has_step_outcome task.workflow_id seq types db ≡ false
        → WhenSome
            (λ r. P r.0)
            (append_events now trace
              (record { workflow_id = task.workflow_id; events = event ∷ [] })
              db))
    → P (after_append db (append_step_outcome now trace task seq event types db)).0
unfolding append_step_outcome
recorded-P P now trace task seq event types db h k = elim (Bool-cases (owns_lease task db)) [
  | inl o ↦
      rw (o, after_append)
        (elim (Bool-cases (has_step_outcome task.workflow_id seq types db)) [
          | inl b ↦ rw (b, after_append) h
          | inr b ↦ rw (b, after_append) (written-P _ (k b))
        ])
  | inr o ↦ rw (o, after_append) h
]
  where
    written-P :
        (o : Option (Db × AppendEventsResult))
        → WhenSome (λ r. P r.0) o
        → P (after_append db (appending o)).0
    written-P none w = h
    written-P (some r) w = w
