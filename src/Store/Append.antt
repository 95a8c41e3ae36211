-- ===== src/Store/Append.antt =====
-- The contract of `appendEvents` (eventStore.ts, lines 38 to 139).
use karya_kram.Base.{
  ℕ, ◌+◌, ◌≡◌, refl, ap, subst, String, Bool, true, Option, some, List, [], ◌∷◌, ◌++◌, map, length,
  any, All, All-map, ◌≢◌, text_eq,
}
use karya_kram.Base.Dict.{get}
use karya_kram.Workflow.Events.{WorkflowEventPayload, StoredWorkflowEvent}
use karya_kram.Workflow.State.{WorkflowStatus, fold_events}
use karya_kram.Queue.Task.{Task}
use karya_kram.Queue.Ops.{is_live_workflow_task}
use karya_kram.Store.Column.{as_written}
use karya_kram.Store.Events.{
  Db, rows_of, get_events, max_seq, start_seq, number_from, implied_task, enqueue_all,
  AppendEventsResult, append_rows, append_events,
}
use karya_kram.Store.Numbered.{Numbered, number_from-Numbered, start_seq-Numbered}
use karya_kram.Store.Enqueued.{
  HasTask, enqueue_all-HasTask, enqueue-wakes, enqueue_rows-any, HasTask-any,
}
use karya_kram.Store.Appended.{
  WellFormed, get_events-rows_of, history-after, history-after_ne, after-WellFormed,
}

-- The tables and the result after an append of `es` to `wf`.
pub record Appended (now : ℕ) (trace : Option String) (wf : String) (es : List WorkflowEventPayload)
    (db : Db) (r : Db × AppendEventsResult) : Type 0 where
  pub history : get_events wf r.0 ≡ get_events wf db ++ map as_written r.1.stored_events
  pub numbered : Numbered (1 + length (get_events wf db)) r.1.stored_events
  pub payloads : map (λ e. e.event) r.1.stored_events ≡ es
  pub others : (other : String) → wf ≢ other → get_events other r.0 ≡ get_events other db
  pub state : r.1.state ≡ fold_events (get_events wf r.0)
  pub tasks : All (λ e. HasTask now (implied_task wf trace e) r.0.tasks) r.1.stored_events
  pub kept : (p : Task → Bool) → any p db.tasks.rows ≡ true → any p r.0.tasks.rows ≡ true
  pub awake : any (is_live_workflow_task wf) r.0.tasks.rows ≡ true
  pub well_formed : WellFormed r.0

number_from-payloads :
    (n : ℕ) (es : List WorkflowEventPayload) → map (λ e. e.event) (number_from n es) ≡ es
unfolding number_from
number_from-payloads n [] = refl
number_from-payloads n (e ∷ es) = ap (λ rest. e ∷ rest) (number_from-payloads _ es)

append_rows-Appended :
    (now : ℕ) (trace : Option String) (wf : String) (es : List WorkflowEventPayload)
    (stored : List StoredWorkflowEvent) (db : Db)
    → WellFormed db
    → Numbered (1 + length (rows_of wf db.events)) stored
    → map (λ e. e.event) stored ≡ es
    → Appended now trace wf es db
        (append_rows now trace (record { workflow_id = wf; events = es }) stored db)
append_rows-Appended now trace wf es stored db ok consecutive same = record {
  history = unfold append_rows in history-after now trace wf stored es db ok consecutive;
  numbered = unfold append_rows in rw (get_events-rows_of wf db (ok.numbered wf)) consecutive;
  payloads = unfold append_rows in same;
  others = history-after_ne now trace wf stored es db ok consecutive;
  state = unfold append_rows get_events in refl;
  tasks =
      unfold append_rows in
      All-map (λ e. HasTask-any wf trace now (implied_task wf trace e) _) stored
        (enqueue_all-HasTask wf trace now stored db.tasks);
  kept = λ p h. unfold append_rows in enqueue_rows-any p wf trace now stored db.tasks h;
  awake =
      unfold append_rows in enqueue-wakes wf trace now (enqueue_all wf trace now stored db.tasks);
  well_formed = after-WellFormed now trace wf stored es db ok consecutive;
}

-- On well-formed tables with an execution row for the workflow, an append of one or more events
-- succeeds: the workflow's history is the old one with these events at the end as JSON writes
-- them, with nested undefined dropped or null, numbered on from its length, other histories are as
-- they were, the state returned is the fold of the new history, each event that schedules a step
-- has its pending task, no task is lost, the workflow has a live workflow task, and the tables are
-- well formed.
pub append-Appended :
    (now : ℕ) (trace : Option String) (wf : String) (e : WorkflowEventPayload)
    (es : List WorkflowEventPayload) (s : WorkflowStatus) (db : Db)
    → WellFormed db
    → get wf db.executions ≡ some s
    → (r : Db × AppendEventsResult) × (append_events now trace
          (record { workflow_id = wf; events = e ∷ es })
          db
        ≡ some r)
      × Appended now trace wf (e ∷ es) db r
unfolding append_events
append-Appended now trace wf e es s db ok row =
    let n = start_seq (max_seq (rows_of wf db.events)) in
    let stored = number_from n (e ∷ es) in
    (
      append_rows now trace (record { workflow_id = wf; events = e ∷ es }) stored db,
      rw (row, append_events) refl,
      append_rows-Appended now trace wf (e ∷ es) stored db ok
          (subst (λ m. Numbered m stored)
            (start_seq-Numbered (rows_of wf db.events) (ok.numbered wf))
            (number_from-Numbered n (e ∷ es)))
          (number_from-payloads n (e ∷ es)),
    )
