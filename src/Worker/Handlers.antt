-- ===== src/Worker/Handlers.antt =====
-- packages/worker-sdk/src: activityHandler.ts, timerHandler.ts, sendSignal.ts, cancelWorkflow.ts and
-- startWorkflow.ts. An activity is a function of its input and its idempotency key that returns or throws.
use Prim.Native.String.{◌++◌}
use karya_kram.Base.{
  ℕ, String, Bool, Option, none, some, List, [], ◌∷◌, decimal, ◌&&◌, ◌==◌, number_eq, text_eq,
  is_some_of, any, find, if◌then◌else◌,
}
use karya_kram.Base.Dict.{get, put}
use karya_kram.Json.{Value}
use karya_kram.Workflow.Events.{
  WorkflowEventPayload, StoredWorkflowEvent, workflow_started, activity_scheduled,
  activity_completed, activity_failed, timer_fired, signal_received, cancellation_requested,
}
use karya_kram.Workflow.State.{WorkflowStatus}
use karya_kram.Queue.Task.{Task}
use karya_kram.Store.Events.{Db, get_events, append_events}
use karya_kram.Worker.Fencing.{
  HandlerError, failure, Handled, append_alone, at_seq, has_type, scheduled_event_seq,
}

pub data FnResult : Type 0 where
  returned : Value → FnResult
  raised : String → FnResult

abbrev pub ActivityRegistry : Type 0
ActivityRegistry = String → Option (Value → String → FnResult)

abbrev pub event_at : ℕ → List StoredWorkflowEvent → Option StoredWorkflowEvent
event_at seq history = find (λ e. e.seq == seq) history

-- Whether the history has an event of these types for the step that `seq` scheduled.
abbrev pub has_outcome : List String → ℕ → List StoredWorkflowEvent → Bool
has_outcome types seq history =
    any (λ e. has_type types e.event && is_some_of seq (scheduled_event_seq e.event)) history

abbrev pub activity_outcome_types : List String
activity_outcome_types = "ActivityCompleted" ∷ "ActivityFailed" ∷ []

abbrev pub scheduled_activity : Option StoredWorkflowEvent → Option (String × Value)
scheduled_activity none = none
scheduled_activity (some e) = elim e.event [
  | activity_scheduled type input ↦ some (type, input)
  | _ ↦ none
]

abbrev pub outcome_event : ℕ → FnResult → WorkflowEventPayload
outcome_event seq (returned result) = activity_completed seq result
outcome_event seq (raised message) = activity_failed seq message

-- What the handler decides from the history that it reads: nothing to do, an event to append, an error.
pub data Decision : Type 0 where
  done : Decision
  append : List WorkflowEventPayload → Decision
  raises : HandlerError → Decision

unfoldable pub activity_decision : ActivityRegistry → Task → ℕ → List StoredWorkflowEvent → Decision
activity_decision registry task seq history = elim (scheduled_activity (event_at seq history)) [
  | none ↦ raises (
      failure
        ("no ActivityScheduled event at seq " ++ decimal seq ++ " for task " ++ decimal task.id))
  | some (type, input) ↦
      if has_outcome activity_outcome_types seq history then done else elim (registry type) [
        | none ↦ raises (failure ("no activity registered for type \"" ++ type ++ "\""))
        | some fn ↦
            append (outcome_event seq (fn input (task.workflow_id ++ ":" ++ decimal seq)) ∷ [])
      ]
]

-- The append that was decided, in a transaction of its own.
abbrev pub carry_out : ℕ → Option String → String → Decision → Db → Handled
carry_out now trace wf done db = (db, none)
carry_out now trace wf (append events) db = append_alone now trace wf events db
carry_out now trace wf (raises e) db = (db, some e)

unfoldable pub activity_handler : ActivityRegistry → ℕ → Option String → Task → Db → Db → Handled
unfolding activity_decision get_events append_events
activity_handler registry now trace task read db =
    at_seq "activity" task db
      (λ seq.
        carry_out now trace task.workflow_id
          (activity_decision registry task seq (get_events task.workflow_id read)) db)
      task.scheduled_event_seq

unfoldable pub timer_handler : ℕ → Option String → Task → Db → Handled
unfolding append_events
timer_handler now trace task db =
    at_seq "timer" task db
      (λ seq. append_alone now trace task.workflow_id (timer_fired seq ∷ []) db)
      task.scheduled_event_seq

unfoldable pub send_signal : ℕ → Option String → String → String → Value → Db → Handled
unfolding append_events
send_signal now trace wf name payload db =
    append_alone now trace wf (signal_received name payload ∷ []) db

unfoldable pub cancel_workflow : ℕ → Option String → String → Option String → Db → Handled
unfolding append_events
cancel_workflow now trace wf reason db =
    append_alone now trace wf (cancellation_requested reason ∷ []) db

-- The row of a new execution.
unfoldable pub new_execution : String → Db → Db
unfolding put
new_execution wf db = record db { executions = put wf WorkflowStatus.running db.executions }

-- `randomUUID()` gives the id; the insertion of a second row with one id is an error. The row stands
-- before the append begins.
unfoldable pub start_workflow : ℕ → Option String → String → String → Value → Db → Handled
unfolding append_events new_execution get
start_workflow now trace wf type input db =
    let started =
      append_alone now trace wf (workflow_started type input ∷ []) (new_execution wf db) in
    elim (get wf db.executions) [ some _ ↦ (db, some (failure "duplicate key")) | none ↦ started ]
