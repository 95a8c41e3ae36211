-- ===== src/Replay/Program.antt =====
-- packages/core/src/replay.ts, lines 22 to 149: the workflow context's interface, the commands, and
-- the errors and results of a replay.
use Prim.Native.String.{slice, ◌++◌}
use karya_kram.Base.{ℕ, String, Option, List, decimal}
use karya_kram.Base.Dict.{Dict}
use karya_kram.Json.{Value}
use karya_kram.Llm.{LlmRequest, LlmCallResult}

-- The methods of `ctx`, with their arguments.
pub data Call : Type 0 where
  schedule_activity : String → Value → Call
  sleep : ℕ → Call
  wait_for_signal : String → Call
  llm_call : LlmRequest → Call
  tool_call : String → Value → Call

-- What a promise of `ctx` resolves with.
pub data Resolved : Type 0 where
  value : Value → Resolved
  nothing : Resolved
  llm_result : LlmCallResult → Resolved

pub data Promise : Type 0 where
  resolved : Resolved → Promise
  rejected : String → Promise
  pending : Promise

-- What a call gives: the number of its promise, or an error thrown at once.
pub data Called : Type 0 where
  promise : ℕ → Called
  thrown : String → Called

-- What `await` gives back to the workflow function.
pub data Awaited : Type 0 where
  fulfilled : Resolved → Awaited
  failed : String → Awaited

-- An async function: it calls `ctx`, awaits one promise at a time (any number may be outstanding),
-- and returns a value or throws an error with a message.
pub data Program : Type 0 where
  returns : Value → Program
  throws : String → Program
  call : Call → (Called → Program) → Program
  await : ℕ → (Awaited → Program) → Program

abbrev pub WorkflowFn : Type 0
WorkflowFn = Value → Program

pub data WorkflowCommand : Type 0 where
  schedule_activity : String → Value → WorkflowCommand
  complete_workflow : Value → WorkflowCommand
  fail_workflow : String → WorkflowCommand
  schedule_timer : ℕ → WorkflowCommand
  -- step id, request and request hash
  request_llm_call : String → LlmRequest → String → WorkflowCommand
  -- step id, tool, arguments and arguments hash
  request_tool_call : String → String → Value → String → WorkflowCommand

pub data StepKind : Type 0 where
  llm tool : StepKind

pub data NonDeterminismError : Type 0 where
  -- call index, expected and actual activity type
  activity_mismatch : ℕ → String → String → NonDeterminismError
  -- StepRequestMismatchError: step id, call index, expected and actual hash
  step_request_mismatch : String → ℕ → String → String → StepKind → NonDeterminismError

abbrev changed_text : StepKind → String
changed_text llm =
    "The model, prompt, params or tool definitions changed since this step was requested; refusing to silently re-call the provider."
changed_text tool =
    "The tool name or its arguments changed since this step was requested; refusing to silently re-execute the tool."

abbrev hash_text : StepKind → String
hash_text llm = "request hash "
hash_text tool = "arguments hash "

-- `err.message`
unfoldable pub error_message : NonDeterminismError → String
error_message (activity_mismatch i expected actual) =
    "Non-deterministic workflow: history has call "
    ++ decimal i
    ++ " scheduling \""
    ++ expected
    ++ "\", but the running code's call "
    ++ decimal i
    ++ " asked for \""
    ++ actual
    ++ "\" instead."
error_message (step_request_mismatch step_id i expected actual kind) =
    "Non-deterministic workflow: step \""
    ++ step_id
    ++ "\" was recorded with "
    ++ hash_text kind
    ++ slice expected 0 12
    ++ ", but the running code now produces "
    ++ slice actual 0 12
    ++ ". "
    ++ changed_text kind

pub data ReplayStatus : Type 0 where
  running completed failed : ReplayStatus

pub record ReplayResult : Type 0 where
  pub status : ReplayStatus
  pub result : Option Value
  pub error : Option String
  pub commands : List WorkflowCommand
  pub pending_llm_requests : Option (Dict String LlmRequest)

-- `replay` throws the error, or returns the result.
pub data ReplayOutcome : Type 0 where
  threw : NonDeterminismError → ReplayOutcome
  replayed : ReplayResult → ReplayOutcome
