-- ===== src/Worker/Fencing.antt =====
-- packages/worker-sdk/src/fencing.ts: the append of an outcome under the task's lease. The two errors of
-- `appendEvents` are one here, without their messages.
use Prim.Native.String.{◌++◌}
use karya_kram.Base.{
  ℕ, String, Bool, false, ◌&&◌, Option, none, some, List, [], ◌∷◌, decimal, ◌==◌, number_eq,
  text_eq, is_some_of, any, if◌then◌else◌,
}
use karya_kram.Workflow.Events.{
  WorkflowEventPayload, workflow_started, activity_scheduled, activity_completed, activity_failed,
  workflow_completed, workflow_failed, timer_scheduled, timer_fired, signal_received,
  cancellation_requested, workflow_canceled, llm_requested, llm_completed, llm_failed,
  tool_requested, tool_completed, tool_failed,
}
use karya_kram.Queue.Task.{Task}
use karya_kram.Queue.Ops.{LeaseFence, is_lease_owned}
use karya_kram.Store.Events.{EventRow, Db, AppendEventsResult, append_events}

-- What a handler throws.
pub data HandlerError : Type 0 where
  lease_lost : ℕ → HandlerError
  failure : String → HandlerError

-- The tables once the handler ends, and what it throws.
abbrev pub Handled : Type 0
Handled = Db × Option HandlerError

-- The end of a transaction that only appends: an error of `appendEvents` is thrown on.
abbrev pub after_alone : Db → Option (Db × AppendEventsResult) → Handled
after_alone db none = (db, some (failure "appendEvents failed"))
after_alone db (some r) = (r.0, none)

-- `withTransaction(pool, (client) => appendEvents(client, { workflowId, events }))`
abbrev pub append_alone : ℕ → Option String → String → List WorkflowEventPayload → Db → Handled
append_alone now trace wf events db =
    after_alone db (append_events now trace (record { workflow_id = wf; events = events }) db)

-- What a handler does with `scheduledEventSeq`, which its task must have.
abbrev pub at_seq : String → Task → Db → (ℕ → Handled) → Option ℕ → Handled
at_seq type task db next none =
    (db, some (failure (type ++ " task " ++ decimal task.id ++ " has no scheduled_event_seq")))
at_seq type task db next (some seq) = next seq

-- `event.type`
abbrev pub event_type : WorkflowEventPayload → String
event_type (workflow_started _ _) = "WorkflowStarted"
event_type (activity_scheduled _ _) = "ActivityScheduled"
event_type (activity_completed _ _) = "ActivityCompleted"
event_type (activity_failed _ _) = "ActivityFailed"
event_type (workflow_completed _) = "WorkflowCompleted"
event_type (workflow_failed _) = "WorkflowFailed"
event_type (timer_scheduled _) = "TimerScheduled"
event_type (timer_fired _) = "TimerFired"
event_type (signal_received _ _) = "SignalReceived"
event_type (cancellation_requested _) = "CancellationRequested"
event_type (workflow_canceled _) = "WorkflowCanceled"
event_type (llm_requested _) = "LLM_REQUESTED"
event_type (llm_completed _) = "LLM_COMPLETED"
event_type (llm_failed _) = "LLM_FAILED"
event_type (tool_requested _) = "TOOL_REQUESTED"
event_type (tool_completed _) = "TOOL_COMPLETED"
event_type (tool_failed _) = "TOOL_FAILED"

-- `payload->>'scheduledEventSeq'`
abbrev pub scheduled_event_seq : WorkflowEventPayload → Option ℕ
scheduled_event_seq (activity_completed seq _) = some seq
scheduled_event_seq (activity_failed seq _) = some seq
scheduled_event_seq (timer_fired seq) = some seq
scheduled_event_seq (llm_completed e) = some e.scheduled_event_seq
scheduled_event_seq (llm_failed e) = some e.scheduled_event_seq
scheduled_event_seq (tool_completed e) = some e.scheduled_event_seq
scheduled_event_seq (tool_failed e) = some e.scheduled_event_seq
scheduled_event_seq _ = none

-- `none` where the task has no owner.
abbrev pub fence_of : Task → Option LeaseFence
fence_of task = elim task.leased_by [
  | none ↦ none
  | some worker ↦ some (record { task_id = task.id; worker_id = worker; attempt = task.attempt })
]

unfoldable pub owns_lease : Task → Db → Bool
unfolding is_lease_owned
owns_lease task db = elim (fence_of task) [ none ↦ false | some f ↦ is_lease_owned f db.tasks ]

abbrev pub has_type : List String → WorkflowEventPayload → Bool
has_type types e = any (λ type. type == event_type e) types

-- The WHERE clause of `hasStepOutcome`.
abbrev pub is_outcome_row : String → ℕ → List String → EventRow → Bool
is_outcome_row wf seq types r =
    r.workflow_id == wf
    && has_type types r.stored.event
    && is_some_of seq (scheduled_event_seq r.stored.event)

unfoldable pub has_step_outcome : String → ℕ → List String → Db → Bool
has_step_outcome wf seq types db = any (is_outcome_row wf seq types) db.events

pub data Appending : Type 0 where
  written : Db → Appending
  already_recorded : Appending
  refused : HandlerError → Appending

abbrev pub appending : Option (Db × AppendEventsResult) → Appending
appending none = refused (failure "appendEvents failed")
appending (some r) = written r.0

unfoldable pub append_step_outcome :
    ℕ → Option String → Task → ℕ → WorkflowEventPayload → List String → Db → Appending
unfolding owns_lease has_step_outcome append_events
append_step_outcome now trace task scheduled_seq event types db =
    let appended = appending (
      append_events now trace (record { workflow_id = task.workflow_id; events = event ∷ [] })
        db) in
    if owns_lease task db
    then (if has_step_outcome task.workflow_id scheduled_seq types db
        then already_recorded
        else appended)
    else refused (lease_lost task.id)

-- What the handler that awaits it has done then.
abbrev pub after_append : Db → Appending → Handled
after_append db (written next) = (next, none)
after_append db already_recorded = (db, none)
after_append db (refused e) = (db, some e)
