-- ===== src/Worker/ToolHandler.antt =====
-- packages/worker-sdk/src/toolHandler.ts: the task handler of tool steps, and its one transaction.
-- A tool is a function of its arguments and its idempotency key, which gives a result and the rows that
-- it writes through the transaction, or throws. The registry's validation is a function too.
use Prim.Native.String.{◌++◌ as ◌+s+◌}
use karya_kram.Base.{
  ℕ, String, Bool, false, not, ◌&&◌, Option, none, some, List, [], ◌∷◌, decimal, leb, ◌==◌, text_eq,
  if◌then◌else◌,
}
use karya_kram.Json.{Value, null_if_undefined}
use karya_kram.Llm.{canonical_tool_call}
use karya_kram.Workflow.Events.{
  ToolRequestedEvent, WorkflowEventPayload, StoredWorkflowEvent, tool_requested, tool_completed,
  tool_failed,
}
use karya_kram.Queue.Task.{Task}
use karya_kram.Store.Events.{Db, AppendEventsResult, get_events, append_events}
use karya_kram.Worker.Fencing.{
  HandlerError, lease_lost, failure, Handled, at_seq, owns_lease, has_step_outcome,
  append_step_outcome, after_append,
}
use karya_kram.Worker.Handlers.{event_at, has_outcome}
use karya_kram.Worker.Ledger.{
  ClaimResult, claimed, already, claim_tool_execution, complete_tool_execution, write_effects,
}

abbrev pub tool_outcome_types : List String
tool_outcome_types = "TOOL_COMPLETED" ∷ "TOOL_FAILED" ∷ []

pub record ToolError : Type 0 where
  pub message : String
  pub code : String
  pub retryable : Bool

pub data ToolRun : Type 0 where
  ran : Value → List (String × Value) → ToolRun
  raised : ToolError → ToolRun

abbrev pub Tool : Type 0
Tool = Value → String → ToolRun

-- The registry and the hash of a worker. `validate` gives the message and code of a refusal.
pub record ToolWorker : Type 0 where
  pub validate : String → Value → Option (String × String)
  pub tool : String → Option Tool
  pub hash : String → String

-- The transaction's tables with the step's result and latency, or what the tool threw.
pub data Execution : Type 0 where
  executed : Db → Value → ℕ → Execution
  thrown : ToolError → Execution

abbrev pub after_run : String → ToolRequestedEvent → ℕ → Db → ToolRun → Execution
after_run wf e latency db (ran result effects) =
    executed (complete_tool_execution wf e.step_id result (write_effects wf e.step_id effects db))
      result latency
after_run wf e latency db (raised err) = thrown err

-- The tool runs where the claim succeeds; else the stored result stands in.
abbrev pub after_claim : Tool → String → ToolRequestedEvent → ℕ → Db × ClaimResult → Execution
after_claim tool wf e latency (db, claimed) =
    after_run wf e latency db (tool e.args (wf +s+ ":" +s+ e.step_id))
after_claim tool wf e latency (db, already result) = executed db result 0

-- How the transaction ends. An error of `appendEvents` counts as thrown by the tool.
pub data Ended : Type 0 where
  committed : Db → Ended
  lease_gone : Ended
  tool_threw : ToolError → Ended

abbrev pub completed_event : Task → ToolRequestedEvent → ℕ → Value → ℕ → WorkflowEventPayload
completed_event task e seq result latency = tool_completed (record {
  step_id = e.step_id;
  scheduled_event_seq = seq;
  tool = e.tool;
  result = null_if_undefined result;
  latency_ms = latency;
  attempt = task.attempt;
})

abbrev pub after_append_completed : Option (Db × AppendEventsResult) → Ended
after_append_completed none =
    tool_threw (record { message = "appendEvents failed"; code = "tool_error"; retryable = false })
after_append_completed (some r) = committed r.0

abbrev pub finish_execution : ℕ → Option String → Task → ToolRequestedEvent → ℕ → Execution → Ended
finish_execution now trace task e seq (thrown err) = tool_threw err
finish_execution now trace task e seq (executed db result latency) =
    let appended = after_append_completed (
      append_events now trace
        (record {
          workflow_id = task.workflow_id;
          events = completed_event task e seq result latency ∷ [];
        })
        db) in
    if owns_lease task db
    then (if has_step_outcome task.workflow_id seq tool_outcome_types db
        then committed db
        else appended)
    else lease_gone

-- `early` are the tables when the lease is looked up without a lock.
unfoldable pub execute_atomically :
    ℕ → Option String → Task → ToolRequestedEvent → ℕ → Tool → ℕ → Db → Db → Ended
unfolding claim_tool_execution complete_tool_execution append_events owns_lease has_step_outcome
execute_atomically now trace task e seq tool latency early db =
    let ended =
      finish_execution now trace task e seq (
        after_claim tool task.workflow_id e latency (claim_tool_execution task.workflow_id e db)) in
    if owns_lease task early then ended else lease_gone

abbrev pub failed_event : Task → ToolRequestedEvent → ℕ → ToolError → WorkflowEventPayload
failed_event task e seq err = tool_failed (record {
  step_id = e.step_id;
  scheduled_event_seq = seq;
  tool = e.tool;
  error = err.message;
  code = err.code;
  retryable = err.retryable;
  attempts = task.attempt;
})

-- The failure is recorded, and then `rethrown` is thrown, unless the append throws.
abbrev pub then_rethrow : Option HandlerError → Handled → Handled
then_rethrow rethrown (db, none) = (db, rethrown)
then_rethrow rethrown (db, some e) = (db, some e)

abbrev pub fail_step : ℕ → Option String → Task → ToolRequestedEvent → ℕ → ToolError → Db → Handled
fail_step now trace task e seq err db =
    then_rethrow (if err.retryable then some (failure err.message) else none) (
      after_append db (
        append_step_outcome now trace task seq (failed_event task e seq err) tool_outcome_types db))

-- A retryable error is rethrown alone while attempts remain.
abbrev pub after_execution :
    ℕ → Option String → Task → ToolRequestedEvent → ℕ → Db → Ended → Handled
after_execution now trace task e seq db (committed next) = (next, none)
after_execution now trace task e seq db lease_gone = (db, some (lease_lost task.id))
after_execution now trace task e seq db (tool_threw err) =
    let recorded = fail_step now trace task e seq err db in
    if err.retryable && not (leb task.max_attempts task.attempt)
    then (db, some (failure err.message))
    else recorded

abbrev pub refusal : String × String → ToolError
refusal (message, code) = record { message = message; code = code; retryable = false }

-- `hashToolCall`
unfoldable pub hash_tool_call : (String → String) → String → Value → String
unfolding canonical_tool_call
hash_tool_call hash name args = hash (canonical_tool_call name args)

abbrev pub run_registered :
    ℕ → Option String → Task → ToolRequestedEvent → ℕ → ℕ → Db → Db → Option Tool → Handled
run_registered now trace task e seq latency early db none =
    (db, some (failure ("tool \"" +s+ e.tool +s+ "\" vanished from the registry")))
run_registered now trace task e seq latency early db (some tool) =
    after_execution now trace task e seq db
      (execute_atomically now trace task e seq tool latency early db)

-- Only a registered tool with valid arguments, which hash to the recorded hash, may run.
abbrev pub after_validation :
    ToolWorker
    → ℕ
    → Option String
    → Task
    → ToolRequestedEvent
    → ℕ
    → ℕ
    → Db
    → Db
    → Option (String × String)
    → Handled
after_validation w now trace task e seq latency early db (some refused) =
    fail_step now trace task e seq (refusal refused) db
after_validation w now trace task e seq latency early db none =
    let mismatch =
      fail_step now trace task e seq
        (refusal ("stored arguments do not match their recorded hash", "args_hash_mismatch")) db in
    let running = run_registered now trace task e seq latency early db (w.tool e.tool) in
    if hash_tool_call w.hash e.tool e.args == e.args_hash then running else mismatch

abbrev pub requested_tool : Option StoredWorkflowEvent → Option ToolRequestedEvent
requested_tool none = none
requested_tool (some e) = elim e.event [ tool_requested r ↦ some r | _ ↦ none ]

abbrev pub tool_step :
    ToolWorker
    → ℕ
    → Option String
    → Task
    → ℕ
    → List StoredWorkflowEvent
    → ℕ
    → Db
    → Db
    → Option ToolRequestedEvent
    → Handled
tool_step w now trace task seq history latency early db none = (
  db,
  some (
      failure
        ("no TOOL_REQUESTED event at seq " +s+ decimal seq +s+ " for task " +s+ decimal task.id)),
)
tool_step w now trace task seq history latency early db (some e) =
    let validated =
      after_validation w now trace task e seq latency early db (w.validate e.tool e.args) in
    if has_outcome tool_outcome_types seq history then (db, none) else validated

unfoldable pub tool_handler : ToolWorker → ℕ → Option String → Task → ℕ → Db → Db → Db → Handled
unfolding get_events hash_tool_call execute_atomically append_step_outcome
tool_handler w now trace task latency read early db =
    at_seq "tool" task db
      (λ seq.
        let history = get_events task.workflow_id read in
        tool_step w now trace task seq history latency early db
          (requested_tool (event_at seq history)))
      task.scheduled_event_seq
