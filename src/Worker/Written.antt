-- ===== src/Worker/Written.antt =====
-- What the payload column keeps of an event: its type and the seq of its step (eventStore.ts, fencing.ts).
use karya_kram.Base.{
  ℕ, ◌≡◌, refl, arith, String, List, [], ◌∷◌, map, length, select, text_eq, number_eq,
}
use karya_kram.Workflow.Events.{
  WorkflowEventPayload, StoredWorkflowEvent, workflow_started, activity_scheduled,
  activity_completed, activity_failed, workflow_completed, workflow_failed, timer_scheduled,
  timer_fired, signal_received, cancellation_requested, workflow_canceled, llm_requested,
  llm_completed, llm_failed, tool_requested, tool_completed, tool_failed,
}
use karya_kram.Store.Column.{written_payload, as_written}
use karya_kram.Store.Numbered.{rows_for}
use karya_kram.Worker.Fencing.{event_type, scheduled_event_seq, is_outcome_row}

written-keeps :
    (e : WorkflowEventPayload)
    → (event_type (written_payload e) ≡ event_type e)
      × (scheduled_event_seq (written_payload e) ≡ scheduled_event_seq e)
unfolding written_payload
written-keeps (workflow_started t i) = (refl, refl)
written-keeps (activity_scheduled t i) = (refl, refl)
written-keeps (activity_completed k r) = (refl, refl)
written-keeps (activity_failed k e) = (refl, refl)
written-keeps (workflow_completed r) = (refl, refl)
written-keeps (workflow_failed e) = (refl, refl)
written-keeps (timer_scheduled a) = (refl, refl)
written-keeps (timer_fired k) = (refl, refl)
written-keeps (signal_received n v) = (refl, refl)
written-keeps (cancellation_requested r) = (refl, refl)
written-keeps (workflow_canceled r) = (refl, refl)
written-keeps (llm_requested e) = (refl, refl)
written-keeps (llm_completed e) = (refl, refl)
written-keeps (llm_failed e) = (refl, refl)
written-keeps (tool_requested e) = (refl, refl)
written-keeps (tool_completed e) = (refl, refl)
written-keeps (tool_failed e) = (refl, refl)

is_outcome_row-written :
    (wf other : String) (seq : ℕ) (types : List String) (e : StoredWorkflowEvent)
    → is_outcome_row other seq types (record { workflow_id = wf; stored = as_written e })
      ≡ is_outcome_row other seq types (record { workflow_id = wf; stored = e })
unfolding as_written
is_outcome_row-written wf other seq types e =
    let kept = written-keeps e.event in rw (kept.0, kept.1) refl

-- As many rows record an outcome of a step after the column as before it.
pub select-written :
    (wf other : String) (seq : ℕ) (types : List String) (es : List StoredWorkflowEvent)
    → length (select (is_outcome_row other seq types) (rows_for wf (map as_written es)))
      ≡ length (select (is_outcome_row other seq types) (rows_for wf es))
select-written wf other seq types [] = refl
select-written wf other seq types (e ∷ es) =
    ground
      (arith, is_outcome_row-written wf other seq types e, select-written wf other seq types es)
