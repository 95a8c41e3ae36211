-- ===== src/Worker/LlmHandler.antt =====
-- packages/worker-sdk/src/llmHandler.ts: one call of the provider, and its outcome. The provider is a
-- function of the request; the price of a response is a function of the configuration.
use Prim.Native.String.{◌++◌}
use karya_kram.Base.{
  ℕ, String, Bool, true, false, not, ◌&&◌, Option, none, some, List, [], ◌∷◌, decimal, leb, ◌==◌,
  text_eq, if◌then◌else◌,
}
use karya_kram.Base.Dict.{get}
use karya_kram.Llm.{LlmRequest, LlmToolCall, canonical_llm_request, get_or}
use karya_kram.Workflow.Events.{
  LlmRequestStorage, LlmRequestedEvent, WorkflowEventPayload, StoredWorkflowEvent, llm_requested,
  llm_completed, llm_failed,
}
use karya_kram.Queue.Task.{Task}
use karya_kram.Store.Events.{Db, get_events}
use karya_kram.Replay.Program.{ReplayResult, ReplayOutcome, threw, replayed, error_message}
use karya_kram.Replay.Run.{replay}
use karya_kram.Worker.Fencing.{
  HandlerError, failure, Handled, at_seq, append_step_outcome, after_append,
}
use karya_kram.Worker.Handlers.{event_at, has_outcome}
use karya_kram.Worker.Replays.{Registry, started_event}
use karya_kram.Worker.Capped.{cap_response}

abbrev pub llm_outcome_types : List String
llm_outcome_types = "LLM_COMPLETED" ∷ "LLM_FAILED" ∷ []

-- `hashLlmRequest`
unfoldable pub hash_llm_request : (String → String) → LlmRequest → String
unfolding canonical_llm_request
hash_llm_request hash request = hash (canonical_llm_request request)

pub data ResolvedRequest : Type 0 where
  found : LlmRequest → ResolvedRequest
  unavailable : String → ResolvedRequest

abbrev pub is_full : LlmRequestStorage → Bool
is_full LlmRequestStorage.full = true
is_full _ = false

-- The stored copy, where it can be sent as it is.
abbrev pub full_request : LlmRequestedEvent → Option LlmRequest
full_request e = if is_full e.request_storage then e.request else none

abbrev pub checked_request :
    (String → String) → LlmRequestedEvent → String → LlmRequest → ResolvedRequest
checked_request hash e reason request =
    if hash_llm_request hash request == e.request_hash then found request else unavailable reason

abbrev pub pending_request : LlmRequestedEvent → ReplayResult → Option LlmRequest
pending_request e r = get e.step_id (get_or [] r.pending_llm_requests)

abbrev pub derived_request : (String → String) → LlmRequestedEvent → ReplayOutcome → ResolvedRequest
derived_request hash e (threw error) =
    unavailable ("could not re-derive request: " ++ error_message error)
derived_request hash e (replayed r) = elim (pending_request e r) [
  | none ↦ unavailable ("step " ++ e.step_id ++ " not found while re-deriving")
  | some request ↦
      checked_request hash e "derived request hash differs from the recorded one" request
]

unfoldable pub resolve_request :
    (String → String) → Registry → List StoredWorkflowEvent → LlmRequestedEvent → ResolvedRequest
unfolding replay get
resolve_request hash registry history e = elim (full_request e) [
  | some request ↦ checked_request hash e "stored request does not match its recorded hash" request
  | none ↦ elim (started_event history) [
    | none ↦ unavailable "workflow has no WorkflowStarted event"
    | some (type, input) ↦ elim (registry type) [
      | none ↦ unavailable ("no workflow registered for \"" ++ type ++ "\"")
      | some fn ↦ derived_request hash e (replay fn input history (some hash))
    ]
  ]
]

pub record LlmResponse : Type 0 where
  pub text : String
  pub tool_calls : List LlmToolCall
  pub model : String
  pub input_tokens : ℕ
  pub output_tokens : ℕ
  pub latency_ms : ℕ

pub record LlmProviderError : Type 0 where
  pub message : String
  pub code : String
  pub retryable : Bool

pub data Completion : Type 0 where
  responded : LlmResponse → Completion
  provider_failed : LlmProviderError → Completion

-- The provider, the hash, the registered workflows and the configuration of a worker.
pub record LlmWorker : Type 0 where
  pub complete : LlmRequest → Completion
  pub hash : String → String
  pub registry : Registry
  pub max_stored_bytes : ℕ
  pub estimate_cost : String → ℕ → ℕ → Option ℕ

abbrev pub failed_event : Task → LlmRequestedEvent → ℕ → LlmProviderError → WorkflowEventPayload
failed_event task e seq err = llm_failed (record {
  step_id = e.step_id;
  scheduled_event_seq = seq;
  error = err.message;
  code = err.code;
  retryable = err.retryable;
  attempts = task.attempt;
})

abbrev pub completed_event :
    LlmWorker → Task → LlmRequestedEvent → ℕ → LlmResponse → WorkflowEventPayload
completed_event w task e seq r =
    let capped = cap_response r.text r.tool_calls w.max_stored_bytes in
    llm_completed (record {
      step_id = e.step_id;
      scheduled_event_seq = seq;
      request_hash = e.request_hash;
      text = capped.text;
      tool_calls = capped.tool_calls;
      truncated = capped.truncated;
      model = r.model;
      tokens_in = r.input_tokens;
      tokens_out = r.output_tokens;
      latency_ms = r.latency_ms;
      estimated_cost_usd = w.estimate_cost r.model r.input_tokens r.output_tokens;
      attempt = task.attempt;
    })

-- The outcome that is to be recorded, and what is thrown once it is.
pub record Outcome : Type 0 where
  pub event : Option WorkflowEventPayload
  pub rethrown : Option HandlerError

abbrev pub exhausted : Task → Bool
exhausted task = leb task.max_attempts task.attempt

abbrev pub rethrow_if : Bool → LlmProviderError → Option HandlerError
rethrow_if b err = if b then some (failure err.message) else none

-- A retryable error is rethrown alone while attempts remain.
abbrev pub completion_outcome : LlmWorker → Task → LlmRequestedEvent → ℕ → Completion → Outcome
completion_outcome w task e seq (responded r) = record {
  event = some (completed_event w task e seq r);
  rethrown = none;
}
completion_outcome w task e seq (provider_failed err) = record {
  event =
      if err.retryable && not (exhausted task) then none else some (failed_event task e seq err);
  rethrown = rethrow_if err.retryable err;
}

abbrev pub request_outcome : LlmWorker → Task → LlmRequestedEvent → ℕ → ResolvedRequest → Outcome
request_outcome w task e seq (unavailable reason) = record {
  event = some (
      failed_event task e seq
        (record { message = reason; code = "request_unavailable"; retryable = false }));
  rethrown = none;
}
request_outcome w task e seq (found request) = completion_outcome w task e seq (w.complete request)

abbrev pub requested_step : Option StoredWorkflowEvent → Option LlmRequestedEvent
requested_step none = none
requested_step (some e) = elim e.event [ llm_requested r ↦ some r | _ ↦ none ]

-- What is thrown after the outcome's append: the append's own error first.
abbrev pub then_throw : Option HandlerError → Handled → Handled
then_throw thrown (db, none) = (db, thrown)
then_throw thrown (db, some e) = (db, some e)

abbrev pub record_outcome : ℕ → Option String → Task → ℕ → Outcome → Db → Handled
record_outcome now trace task seq o db = elim o.event [
  | none ↦ (db, o.rethrown)
  | some event ↦
      then_throw o.rethrown
        (after_append db (append_step_outcome now trace task seq event llm_outcome_types db))
]

abbrev pub llm_step :
    LlmWorker
    → ℕ
    → Option String
    → Task
    → ℕ
    → List StoredWorkflowEvent
    → Option LlmRequestedEvent
    → Db
    → Handled
llm_step w now trace task seq history none db = (
  db,
  some (
      failure ("no LLM_REQUESTED event at seq " ++ decimal seq ++ " for task " ++ decimal task.id)),
)
llm_step w now trace task seq history (some e) db =
    if has_outcome llm_outcome_types seq history
    then (db, none)
    else record_outcome now trace task seq
        (request_outcome w task e seq (resolve_request w.hash w.registry history e)) db

unfoldable pub llm_handler : LlmWorker → ℕ → Option String → Task → Db → Db → Handled
unfolding get_events resolve_request cap_response append_step_outcome
llm_handler w now trace task read db =
    at_seq "llm" task db
      (λ seq.
        let history = get_events task.workflow_id read in
        llm_step w now trace task seq history (requested_step (event_at seq history)) db)
      task.scheduled_event_seq
