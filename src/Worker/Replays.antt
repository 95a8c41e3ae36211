-- ===== src/Worker/Replays.antt =====
-- packages/worker-sdk/src/workflowReplayHandler.ts: a replay's commands become events.
-- What buildStoredRequest keeps of a request is a function of the configuration.
use Prim.Native.String.{◌++◌}
use karya_kram.Base.{
  ℕ, ◌+◌, String, Bool, Option, none, some, List, [], ◌∷◌, map, any, if◌then◌else◌,
}
use karya_kram.Json.{Value}
use karya_kram.Llm.{LlmRequest}
use karya_kram.Workflow.Events.{
  LlmRequestStorage, WorkflowEventPayload, StoredWorkflowEvent, workflow_started,
  activity_scheduled, workflow_completed, workflow_failed, timer_scheduled, cancellation_requested,
  workflow_canceled, llm_requested, tool_requested,
}
use karya_kram.Queue.Task.{Task}
use karya_kram.Store.Events.{Db, get_events, append_events}
use karya_kram.Replay.Program.{
  WorkflowFn, WorkflowCommand, schedule_activity, complete_workflow, fail_workflow, schedule_timer,
  request_llm_call, request_tool_call, activity_mismatch, step_request_mismatch, error_message,
  ReplayOutcome, threw, replayed,
}
use karya_kram.Replay.Run.{replay}
use karya_kram.Worker.Fencing.{failure, Handled, has_type}
use karya_kram.Worker.Handlers.{Decision, done, append, raises, carry_out}

pub record StoredRequest : Type 0 where
  pub request_storage : LlmRequestStorage
  pub request : Option LlmRequest

pub record LlmStepConfig : Type 0 where
  pub max_attempts : ℕ
  pub tool_max_attempts : ℕ
  pub build_stored_request : LlmRequest → StoredRequest

abbrev pub command_to_event : ℕ → LlmStepConfig → WorkflowCommand → WorkflowEventPayload
command_to_event now llm (schedule_activity type input) = activity_scheduled type input
command_to_event now llm (complete_workflow result) = workflow_completed result
command_to_event now llm (fail_workflow error) = workflow_failed error
command_to_event now llm (schedule_timer duration) = timer_scheduled (now + duration)
command_to_event now llm (request_llm_call step_id request request_hash) =
    let stored = llm.build_stored_request request in
    llm_requested (record {
      step_id = step_id;
      request_hash = request_hash;
      request_storage = stored.request_storage;
      request = stored.request;
      max_attempts = llm.max_attempts;
    })
command_to_event now llm (request_tool_call step_id tool args args_hash) = tool_requested (record {
  step_id = step_id;
  tool = tool;
  args = args;
  args_hash = args_hash;
  max_attempts = llm.tool_max_attempts;
})

abbrev pub Registry : Type 0
Registry = String → Option WorkflowFn

-- `history.find((e) => e.event.type === 'WorkflowStarted')`, with its type and input.
abbrev pub started_event : List StoredWorkflowEvent → Option (String × Value)
started_event [] = none
started_event (e ∷ es) = elim e.event [
  | workflow_started type input ↦ some (type, input)
  | _ ↦ started_event es
]

abbrev pub terminal_types : List String
terminal_types = "WorkflowCompleted" ∷ "WorkflowFailed" ∷ "WorkflowCanceled" ∷ []

abbrev pub is_terminal : List StoredWorkflowEvent → Bool
is_terminal history = any (λ e. has_type terminal_types e.event) history

-- The reason of the first `CancellationRequested`.
abbrev pub cancellation_request : List StoredWorkflowEvent → Option (Option String)
cancellation_request [] = none
cancellation_request (e ∷ es) = elim e.event [
  | cancellation_requested reason ↦ some reason
  | _ ↦ cancellation_request es
]

abbrev pub append_commands : ℕ → LlmStepConfig → List WorkflowCommand → Decision
append_commands now llm [] = done
append_commands now llm (c ∷ cs) = append (map (command_to_event now llm) (c ∷ cs))

-- What becomes of a replay. A step whose request changed fails the workflow.
abbrev pub after_replay : ℕ → LlmStepConfig → ReplayOutcome → Decision
after_replay now llm (threw (step_request_mismatch step_id index expected actual kind)) = append (
    workflow_failed (error_message (step_request_mismatch step_id index expected actual kind)) ∷ [])
after_replay now llm (threw (activity_mismatch index expected actual)) =
    raises (failure (error_message (activity_mismatch index expected actual)))
after_replay now llm (replayed r) = append_commands now llm r.commands

abbrev pub run_workflow :
    (String → String)
    → ℕ
    → LlmStepConfig
    → List StoredWorkflowEvent
    → Value
    → Option WorkflowFn
    → String
    → Decision
run_workflow hash now llm history input none type =
    raises (failure ("no workflow registered for type \"" ++ type ++ "\""))
run_workflow hash now llm history input (some fn) type = elim (cancellation_request history) [
  | none ↦ after_replay now llm (replay fn input history (some hash))
  | some reason ↦
      if is_terminal history
      then after_replay now llm (replay fn input history (some hash))
      else append (workflow_canceled reason ∷ [])
]

unfoldable pub workflow_decision :
    (String → String) → Registry → ℕ → LlmStepConfig → Task → List StoredWorkflowEvent → Decision
unfolding replay
workflow_decision hash registry now llm task history = elim (started_event history) [
  | none ↦ raises (failure ("workflow " ++ task.workflow_id ++ " has no WorkflowStarted event"))
  | some (type, input) ↦ run_workflow hash now llm history input (registry type) type
]

unfoldable pub workflow_replay_handler :
    (String → String) → Registry → LlmStepConfig → ℕ → Option String → Task → Db → Db → Handled
unfolding workflow_decision get_events append_events
workflow_replay_handler hash registry llm now trace task read db =
    carry_out now trace task.workflow_id
      (workflow_decision hash registry now llm task (get_events task.workflow_id read)) db
