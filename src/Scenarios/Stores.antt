-- ===== src/Scenarios/Stores.antt =====
-- A workflow that asks a model once, from its start to the model's answer.
use karya_kram.Base.{
  decimal, ℕ, ◌+◌, ◌≤◌, ◌≡◌, refl, String, Bool, true, false, none, some, List, [], ◌∷◌, ◌++◌, map,
  any, text_eq,
}
use karya_kram.Base.Dict.{get, put}
use karya_kram.Json.{str, null, undefined, obj, arr, nil, cons, end, field}
use karya_kram.Llm.{LlmRequest, LlmRole, LlmToolCall, canonical_llm_request}
use karya_kram.Workflow.Events.{
  activity_completed, LlmRequestStorage, LlmRequestedEvent, StoredWorkflowEvent, workflow_started,
  llm_requested, signal_received,
}
use karya_kram.Workflow.State.{WorkflowStatus, apply_event}
use karya_kram.Queue.Task.{TaskType, Task}
use karya_kram.Queue.Ops.{DequeueInput, complete, is_live_workflow_task, lease, new_task}
use karya_kram.Queue.Steps.{dequeues}
use karya_kram.Replay.Program.{
  StepKind, Call, Called, promise, thrown, Awaited, Program, returns, throws, call, await,
  WorkflowFn,
}
use karya_kram.Replay.Context.{invoke, llm_call}
use karya_kram.Replay.Run.{replay}
use karya_kram.Store.Column.{written_payload, as_written}
use karya_kram.Store.Events.{Db, AppendEventsResult, append_events, get_events, step_task}
use karya_kram.Store.Appended.{WellFormed}
use karya_kram.Store.Append.{Appended, append-Appended}
use karya_kram.Store.LostWakeup.{is_held_live, lost_wakeup}
use karya_kram.Worker.Replays.{StoredRequest, LlmStepConfig, Registry}
use karya_kram.Worker.Capped.{byte_length, cap_response}
use karya_kram.Worker.CappedBounds.{calls_size, cap_response-bound}
use karya_kram.Worker.LlmHandler.{
  LlmResponse, responded, LlmWorker, hash_llm_request, found, resolve_request,
}
use karya_kram.Worker.Resolved.{resolved_request-hash}
use karya_kram.Worker.Moves.{Move, starts, runs_workflow, runs_llm, queries, moves, empty_db}
use karya_kram.Worker.Sound.{reachable-WellFormed}
use karya_kram.Worker.Once.{outcomes, step_outcome_once}

abbrev question : LlmRequest
question = record {
  model = "m";
  messages = record { role = LlmRole.user; content = "hi" } ∷ [];
  params = none;
  tools = none;
}

abbrev answered : Awaited → Program
answered a = returns null

abbrev asked : Called → Program
asked (promise i) = await i answered
asked (thrown e) = throws e

abbrev agent : WorkflowFn
agent input = call (Call.llm_call question) asked

abbrev same_text : String → String
same_text s = s

abbrev registry : Registry
registry type = some agent

abbrev keep_request : LlmRequest → StoredRequest
keep_request r = record { request_storage = LlmRequestStorage.full; request = some r }

abbrev config : LlmStepConfig
config = record { max_attempts = 5; tool_max_attempts = 3; build_stored_request = keep_request }

abbrev answer : LlmResponse
answer = record {
  text = "hello";
  tool_calls = [];
  model = "m";
  input_tokens = 1;
  output_tokens = 1;
  latency_ms = 7;
}

abbrev model_worker : LlmWorker
model_worker = record {
  complete = λ r. responded answer;
  hash = same_text;
  registry = registry;
  max_stored_bytes = 100;
  estimate_cost = λ model tokens_in tokens_out. none;
}

abbrev llm_worker : DequeueInput
llm_worker = record {
  worker_id = "a";
  queue = none;
  task_type = some TaskType.llm;
  limit = 1;
  lease_seconds = 30;
}

abbrev any_worker : DequeueInput
any_worker = record llm_worker { task_type = some TaskType.workflow }

abbrev free : ℕ → Bool
free i = false

abbrev workflow_row : Task
workflow_row = new_task (step_task TaskType.workflow "wf" 1 none) 0 5

abbrev llm_row : Task
llm_row =
    lease llm_worker 15
      (new_task (record (step_task TaskType.llm "wf" 2 none) { max_attempts = some 5 }) 1 10)

abbrev begun : List Move
begun = starts 5 none "wf" "agent" null ∷ queries (dequeues any_worker 6 free) ∷ []

abbrev requested : List Move
requested =
    begun
    ++ runs_workflow same_text registry config 10 none workflow_row (moves empty_db begun)
      ∷ queries (dequeues llm_worker 15 free)
      ∷ []

-- Two runs of the step that both read the history before either wrote.
abbrev answered_twice : List Move
answered_twice =
    requested
    ++ runs_llm model_worker 20 none llm_row (moves empty_db requested)
      ∷ runs_llm model_worker 21 none llm_row (moves empty_db requested)
      ∷ []

one_outcome : outcomes StepKind.llm "wf" 2 (moves empty_db answered_twice) ≡ 1
unfolding outcomes moves replay invoke llm_call canonical_llm_request get put hash_llm_request
one_outcome = refl

step_outcome_once_example : outcomes StepKind.llm "wf" 2 (moves empty_db answered_twice) ≤ 1
step_outcome_once_example = step_outcome_once answered_twice StepKind.llm "wf" 2

reachable-WellFormed_example : WellFormed (moves empty_db answered_twice)
reachable-WellFormed_example = reachable-WellFormed answered_twice

begun_runs : get "wf" (moves empty_db begun).executions ≡ some WorkflowStatus.running
unfolding moves get put apply_event
begun_runs = refl

append-Appended_example :
    (r : Db × AppendEventsResult) × (append_events 30 none
        (record { workflow_id = "wf"; events = signal_received "go" null ∷ [] })
        (moves empty_db begun)
      ≡ some r)
    × Appended 30 none "wf" (signal_received "go" null ∷ []) (moves empty_db begun) r
append-Appended_example =
    append-Appended 30 none "wf" (signal_received "go" null) [] WorkflowStatus.running
      (moves empty_db begun) (reachable-WellFormed begun) begun_runs

begun_leased : any (is_held_live "wf" 0 "a") (moves empty_db begun).tasks.rows ≡ true
unfolding moves
begun_leased = refl

lost_wakeup_example :
    (r : Db × AppendEventsResult) × (append_events 30 none
        (record { workflow_id = "wf"; events = signal_received "go" null ∷ [] })
        (moves empty_db begun)
      ≡ some r)
    × (get_events "wf" r.0
        ≡ get_events "wf" (moves empty_db begun) ++ map as_written r.1.stored_events)
    × (map (λ x. x.event) r.1.stored_events ≡ signal_received "go" null ∷ [])
    × (any (is_live_workflow_task "wf") (complete 0 "a" r.0.tasks).0.rows ≡ false)
lost_wakeup_example =
    lost_wakeup 30 none "wf" (signal_received "go" null) [] WorkflowStatus.running 0 "a"
      (moves empty_db begun) (reachable-WellFormed begun) begun_runs begun_leased

-- The request was stored as a hash alone, so that a replay recovers it.
abbrev hash_only : LlmRequestedEvent
hash_only = record {
  step_id = "llm-0";
  request_hash = hash_llm_request same_text question;
  request_storage = LlmRequestStorage.none_stored;
  request = none;
  max_attempts = 5;
}

abbrev hash_only_history : List StoredWorkflowEvent
hash_only_history =
    record { seq = 1; event = workflow_started "agent" null }
    ∷ record { seq = 2; event = llm_requested hash_only }
    ∷ []

question_found : resolve_request same_text registry hash_only_history hash_only ≡ found question
unfolding decimal resolve_request replay invoke llm_call canonical_llm_request get put
    hash_llm_request
question_found = refl

resolved_request-hash_example : hash_llm_request same_text question ≡ hash_only.request_hash
resolved_request-hash_example =
    resolved_request-hash same_text registry hash_only_history hash_only question question_found

abbrev weather_call : LlmToolCall
weather_call = record { id = "c1"; name = "weather"; arguments = str "Oslo" }

cap_response-bound_example :
    byte_length (cap_response "hello world" (weather_call ∷ []) 8).text
      + calls_size (cap_response "hello world" (weather_call ∷ []) 8).tool_calls
    ≤ 8
cap_response-bound_example = cap_response-bound "hello world" (weather_call ∷ []) 8

-- A result with a nested undefined is written without it, and null stands for it in an array.
undefined_dropped :
    written_payload
      (activity_completed 2 (obj (field "a" undefined (field "b" (arr (cons undefined nil)) end))))
    ≡ activity_completed 2 (obj (field "b" (arr (cons null nil)) end))
unfolding written_payload
undefined_dropped = refl
