-- ===== src/Providers/Mock.antt =====
-- packages/llm/src/mockProvider.ts. `hash` is the SHA-256 in hexadecimal; the audit is the list of the
-- calls that were recorded. The simulated latency is reported, and not waited for.
use Prim.Native.String.{◌++◌ as ◌+s+◌, slice}
use karya_kram.Base.{
  ℕ, ◌+◌, ◌/◌, max, String, Bool, true, false, ◌&&◌, ◌||◌, Option, none, some, List, [], ◌∷◌, ◌++◌,
  reverse, find, length, leb, ◌==◌, text_eq, if◌then◌else◌,
}
use karya_kram.Base.Words.{utf16_length, utf16_prefix}
use karya_kram.Json.{Value, Fields, str, obj, undefined, null, end, field}
use karya_kram.Llm.{
  LlmRole, user, LlmMessage, LlmRequest, LlmToolCall, canonical_llm_request, get_or,
}
use karya_kram.Worker.LlmHandler.{hash_llm_request}
use karya_kram.Providers.Errors.{
  LlmErrorCode, LlmProviderError, LlmResponse, LlmCallContext, ProviderResult, responded, failed,
}

pub data MockFailureOn : Type 0 where
  status_429 status_500 status_503 status_400 timeout : MockFailureOn

pub record MockFailureRule : Type 0 where
  pub on : MockFailureOn
  pub fail_attempts : ℕ
  pub retry_after_ms : Option ℕ
  pub step_id : Option String
  pub request_hash : Option String

pub record MockProviderOptions : Type 0 where
  pub model : Option String
  pub latency_ms : LlmRequest → ℕ
  pub failures : Option (List MockFailureRule)

pub record ProviderCallRecord : Type 0 where
  pub workflow_id : String
  pub step_id : String
  pub request_hash : String
  pub attempt : ℕ

unfoldable pub approx_tokens : ℕ → ℕ
approx_tokens length = max 1 ((length + 3) / 4)

-- `rule.stepId !== undefined && rule.stepId !== …`, negated; `none` is undefined.
abbrev pub matches : Option String → Option String → Bool
matches none actual = true
matches (some wanted) none = false
matches (some wanted) (some actual) = wanted == actual

abbrev pub step_of : Option LlmCallContext → Option String
step_of none = none
step_of (some ctx) = some ctx.step_id

abbrev pub attempt_of : Option LlmCallContext → ℕ
attempt_of none = 1
attempt_of (some ctx) = ctx.attempt

abbrev pub applies : String → Option LlmCallContext → MockFailureRule → Bool
applies request_hash ctx rule =
    leb (attempt_of ctx) rule.fail_attempts
    && matches rule.step_id (step_of ctx)
    && matches rule.request_hash (some request_hash)

abbrev pub failure_for : MockFailureRule → MockFailureOn → LlmProviderError
failure_for rule status_429 = record {
  message = "mock: rate limited (429)";
  retryable = true;
  code = LlmErrorCode.rate_limit;
  status = some 429;
  retry_after_ms = rule.retry_after_ms;
}
failure_for rule status_500 = record {
  message = "mock: server error (500)";
  retryable = true;
  code = LlmErrorCode.server_error;
  status = some 500;
  retry_after_ms = none;
}
failure_for rule status_503 = record {
  message = "mock: server error (503)";
  retryable = true;
  code = LlmErrorCode.server_error;
  status = some 503;
  retry_after_ms = none;
}
failure_for rule timeout = record {
  message = "mock: request timed out";
  retryable = true;
  code = LlmErrorCode.timeout;
  status = none;
  retry_after_ms = none;
}
failure_for rule status_400 = record {
  message = "mock: bad request (400)";
  retryable = false;
  code = LlmErrorCode.invalid_request;
  status = some 400;
  retry_after_ms = none;
}

-- The first rule that applies is the one that throws.
unfoldable pub maybe_fail :
    List MockFailureRule → String → Option LlmCallContext → Option LlmProviderError
maybe_fail [] request_hash ctx = none
maybe_fail (rule ∷ rules) request_hash ctx =
    let rest = maybe_fail rules request_hash ctx in
    if applies request_hash ctx rule then some (failure_for rule rule.on) else rest

unfoldable pub get_field : String → Fields → Option Value
get_field k end = none
get_field k (field j v fs) = let rest = get_field k fs in if j == k then some v else rest

abbrev string_of : Option Value → Option String
string_of (some (str s)) = some s
string_of _ = none

abbrev fields_of : Option Value → Option Fields
fields_of (some (obj fs)) = some fs
fields_of _ = none

abbrev is_user : LlmRole → Bool
is_user user = true
is_user _ = false

abbrev content_or_empty : Option LlmMessage → String
content_or_empty none = ""
content_or_empty (some m) = m.content

-- The content of the last message of a user.
abbrev last_user : List LlmMessage → String
last_user ms = content_or_empty (find (λ m. is_user m.role) (reverse ms))

-- `scripted.arguments ?? {}`
abbrev arguments_or_empty : Option Value → Value
arguments_or_empty none = obj end
arguments_or_empty (some undefined) = obj end
arguments_or_empty (some null) = obj end
arguments_or_empty (some v) = v

abbrev named_call : String → Fields → Option String → List LlmToolCall
unfolding get_field
named_call digest scripted none = []
named_call digest scripted (some name) =
    record {
      id = "call_" +s+ slice digest 0 8;
      name = name;
      arguments = arguments_or_empty (get_field "arguments" scripted);
    }
    ∷ []

abbrev scripted_call : String → Option Fields → List LlmToolCall
unfolding get_field
scripted_call digest none = []
scripted_call digest (some scripted) =
    named_call digest scripted (string_of (get_field "name" scripted))

unfoldable pub mock_text : Fields → String → List LlmMessage → String
unfolding get_field utf16_prefix
mock_text params digest ms =
    get_or ("mock(" +s+ digest +s+ "): " +s+ utf16_prefix 80 (last_user ms))
      (string_of (get_field "mockOutput" params))

unfoldable pub input_chars : List LlmMessage → ℕ
unfolding utf16_length
input_chars [] = 0
input_chars (m ∷ ms) = utf16_length m.content + input_chars ms

abbrev stop_reason_of : List LlmToolCall → String
stop_reason_of [] = "end_turn"
stop_reason_of (c ∷ cs) = "tool_use"

abbrev pub mock_response : (String → String) → MockProviderOptions → LlmRequest → LlmResponse
unfolding canonical_llm_request mock_text input_chars approx_tokens utf16_length get_field
mock_response hash options request =
    let params = get_or end request.params in
    let digest = slice (hash (canonical_llm_request request)) 0 12 in
    let text = mock_text params digest request.messages in
    let tool_calls = scripted_call digest (fields_of (get_field "mockToolCall" params)) in
    record {
      text = text;
      tool_calls = tool_calls;
      usage = record {
        input_tokens = approx_tokens (input_chars request.messages);
        output_tokens = approx_tokens (utf16_length text);
      };
      latency_ms = options.latency_ms request;
      model =
          if request.model == "default" || request.model == ""
          then get_or "mock-1" options.model
          else request.model;
      stop_reason = some (stop_reason_of tool_calls);
    }

abbrev workflow_of : Option LlmCallContext → String
workflow_of none = "unknown"
workflow_of (some ctx) = ctx.workflow_id

abbrev pub audit_row : String → Option LlmCallContext → ProviderCallRecord
audit_row request_hash ctx = record {
  workflow_id = workflow_of ctx;
  step_id = get_or "unknown" (step_of ctx);
  request_hash = request_hash;
  attempt = attempt_of ctx;
}

abbrev pub result_of : Option LlmProviderError → LlmResponse → ProviderResult
result_of none response = responded response
result_of (some e) response = failed e

-- The call is recorded before it fails or answers.
unfoldable pub complete :
    (String → String)
    → MockProviderOptions
    → LlmRequest
    → Option LlmCallContext
    → List ProviderCallRecord
    → List ProviderCallRecord × ProviderResult
unfolding hash_llm_request maybe_fail mock_response
complete hash options request ctx audit =
    let request_hash = hash_llm_request hash request in
    (
      audit ++ audit_row request_hash ctx ∷ [],
      result_of (maybe_fail (get_or [] options.failures) request_hash ctx)
          (mock_response hash options request),
    )
