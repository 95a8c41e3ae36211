-- ===== src/Debugger/Detail.antt =====
-- packages/web/src/llmView.ts, lines 63 to 161: what is shown of an LLM or tool event. `json` is
-- JSON.stringify with an indentation of 2.
use Prim.Native.String.{◌++◌ as ◌+s+◌, slice}
use karya_kram.Base.{
  ℕ, ◌+◌, ◌/◌, ◌%◌, String, Bool, Option, none, some, List, [], ◌∷◌, ◌++◌, map, decimal,
  if◌then◌else◌,
}
use karya_kram.Base.Words.{utf16_prefix, join}
use karya_kram.Json.{Value, Items, arr, nil, cons}
use karya_kram.Llm.{LlmRequest, LlmToolCall, role_text}
use karya_kram.Worker.Capped.{call_value}
use karya_kram.Workflow.Events.{
  LlmRequestStorage, full, redacted, truncated, none_stored, WorkflowEventPayload, llm_requested,
  llm_completed, llm_failed, tool_requested, tool_completed, tool_failed,
}

pub record Block : Type 0 where
  pub label : String
  pub text : String

pub record StepDetail : Type 0 where
  pub title : String
  pub badges : List String
  pub rows : List (String × String)
  pub blocks : List Block

abbrev block : String → String → Block
block label text = record { label = label; text = text }

abbrev pub storage_text : LlmRequestStorage → String
storage_text full = "full"
storage_text redacted = "redacted"
storage_text truncated = "truncated"
storage_text none_stored = "none"

abbrev pub storage_badges : LlmRequestStorage → List String
storage_badges full = []
storage_badges storage = storage_text storage ∷ []

abbrev prompt_of : Option LlmRequest → String
unfolding join
prompt_of none = "(prompt not stored — hash only)"
prompt_of (some r) = join "\n\n" (map (λ m. role_text m.role +s+ ": " +s+ m.content) r.messages)

abbrev model_of : Option LlmRequest → String
model_of none = "(not stored)"
model_of (some r) = r.model

-- `toFixed(6)` of a number of millionths.
abbrev fixed : ℕ → String
fixed n = decimal (n / 1000000) +s+ "." +s+ slice (decimal (1000000 + n % 1000000)) 1 7

abbrev cost_text : Option ℕ → String
cost_text none = "unknown price"
cost_text (some n) = "$" +s+ fixed n

abbrev pub badge_if : Bool → String → List String
badge_if b badge = if b then badge ∷ [] else []

abbrev call_blocks : (Value → String) → List LlmToolCall → List Block
call_blocks json [] = []
call_blocks json (c ∷ cs) = block "tool calls" (json (arr (calls (c ∷ cs)))) ∷ []
  where
    calls : List LlmToolCall → Items
    calls [] = nil
    calls (c ∷ cs) = cons (call_value c) (calls cs)

abbrev pub retry_badge : Bool → String
retry_badge b = if b then "retryable" else "non-retryable"

unfoldable pub describe_step_event :
    (Value → String) → WorkflowEventPayload → Bool → Option StepDetail
unfolding prompt_of utf16_prefix
describe_step_event json (llm_requested e) replayed = some (record {
  title = "LLM request " +s+ e.step_id;
  badges = storage_badges e.request_storage;
  rows =
      ("model", model_of e.request)
      ∷ ("request hash", utf16_prefix 12 e.request_hash)
      ∷ ("storage", storage_text e.request_storage)
      ∷ ("max attempts", decimal e.max_attempts)
      ∷ [];
  blocks = block "prompt" (prompt_of e.request) ∷ [];
})
describe_step_event json (llm_completed e) replayed = some (record {
  title = "LLM response " +s+ e.step_id;
  badges = badge_if replayed "replayed" ++ badge_if e.truncated "truncated";
  rows =
      ("model", e.model)
      ∷ ("tokens in / out", decimal e.tokens_in +s+ " / " +s+ decimal e.tokens_out)
      ∷ ("latency", decimal e.latency_ms +s+ " ms")
      ∷ ("est. cost", cost_text e.estimated_cost_usd)
      ∷ ("attempt", decimal e.attempt)
      ∷ [];
  blocks = block "response" e.text ∷ call_blocks json e.tool_calls;
})
describe_step_event json (llm_failed e) replayed = some (record {
  title = "LLM failed " +s+ e.step_id;
  badges = retry_badge e.retryable ∷ [];
  rows = ("code", e.code) ∷ ("attempts", decimal e.attempts) ∷ [];
  blocks = block "error" e.error ∷ [];
})
describe_step_event json (tool_requested e) replayed = some (record {
  title = "Tool request " +s+ e.step_id;
  badges = [];
  rows =
      ("tool", e.tool)
      ∷ ("args hash", utf16_prefix 12 e.args_hash)
      ∷ ("max attempts", decimal e.max_attempts)
      ∷ [];
  blocks = block "arguments" (json e.args) ∷ [];
})
describe_step_event json (tool_completed e) replayed = some (record {
  title = "Tool result " +s+ e.step_id;
  badges = badge_if replayed "replayed";
  rows =
      ("tool", e.tool)
      ∷ ("latency", decimal e.latency_ms +s+ " ms")
      ∷ ("attempt", decimal e.attempt)
      ∷ [];
  blocks = block "result" (json e.result) ∷ [];
})
describe_step_event json (tool_failed e) replayed = some (record {
  title = "Tool failed " +s+ e.step_id;
  badges = retry_badge e.retryable ∷ [];
  rows = ("tool", e.tool) ∷ ("code", e.code) ∷ ("attempts", decimal e.attempts) ∷ [];
  blocks = block "error" e.error ∷ [];
})
describe_step_event json _ replayed = none
