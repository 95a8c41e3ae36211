-- ===== src/Scenarios/Providers.antt =====
-- Requests, tools and providers, on sample values.
use karya_kram.Base.{
  ℕ, ◌+◌, ◌≤◌, ◌≡◌, ◌≢◌, ◌↔◌, refl, String, true, false, Option, none, some, List, [], ◌∷◌, ◌⊎◌,
  arith, text_eq, ◌==◌, if◌then◌else◌,
}
use karya_kram.Base.Dict.{get, put}
use karya_kram.Base.Throws.{Throws, threw, returned}
use karya_kram.Json.{Value, Fields, null, num, str, end, field}
use karya_kram.Llm.{LlmRequest, LlmRole, message_value, canonical_llm_request}
use karya_kram.Workflow.Events.{LlmRequestStorage, llm_requested}
use karya_kram.Replay.Program.{request_llm_call}
use karya_kram.Worker.Replays.{LlmStepConfig, command_to_event}
use karya_kram.Worker.LlmHandler.{hash_llm_request, found, resolve_request}
use karya_kram.Worker.Stored.{
  StorageConfig, redact_request, request_size, skeleton, shrink_request, build_stored_request,
}
use karya_kram.Worker.StoredFull.{
  requested_event, read_back, contents_size, request-roundtrip, shrink_request-bound,
}
use karya_kram.Worker.ToolHandler.{ran}
use karya_kram.Worker.ToolRegistry.{
  Compiler, ToolDefinition, ToolRegistry, new_registry, register, get_tool, validate, ok,
  unknown_tool, invalid_args,
}
use karya_kram.Worker.Registered.{nothing, registers, Found, validate-Found}
use karya_kram.Providers.Errors.{LlmCallContext, responded, failed}
use karya_kram.Providers.Mock.{
  MockFailureRule, MockProviderOptions, status_429, failure_for, mock_response, complete,
}
use karya_kram.Providers.Anthropic.{Thrown, api_error, AnthropicOptions, map_anthropic_error}
use karya_kram.Providers.Selected.{Env, anthropic, choice_of, create_provider_from_env}
use karya_kram.Providers.Classified.{Transient, retryable_iff}
use karya_kram.Providers.NoFallback.{no_fallback}
use karya_kram.Providers.Recovers.{witnessed, unscripted, Gives, complete-scripted}
use karya_kram.Scenarios.Tools.{registry, same_text}

abbrev request : LlmRequest
request = record {
  model = "default";
  messages = record { role = LlmRole.user; content = "hello" } ∷ [];
  params = none;
  tools = none;
}

abbrev storage : StorageConfig
storage = record { store_prompts = true; max_stored_bytes = 200; redact = same_text }

abbrev llm : LlmStepConfig
llm = record {
  max_attempts = 5;
  tool_max_attempts = 3;
  build_stored_request = build_stored_request storage;
}

request_bytes : request_size request ≡ 66
unfolding request_size message_value
request_bytes = refl

abbrev tuned : LlmRequest
tuned = record request {
  params = some (field "temperature" (num "0") (field "topP" (num "1") end));
}

-- A column that gives the shorter of two keys first.
abbrev swapped : Option Fields → Option Fields
swapped none = none
swapped (some end) = some end
swapped (some (field k v end)) = some (field k v end)
swapped (some (field k v (field j w fs))) = some (field j w (field k v fs))

abbrev column : LlmRequest → LlmRequest
column r = record r { params = swapped r.params }

column_keeps : canonical_llm_request (column tuned) ≡ canonical_llm_request tuned
unfolding canonical_llm_request
column_keeps = refl

tuned_left : redact_request same_text tuned ≡ tuned
unfolding redact_request
tuned_left = refl

tuned_bytes : request_size tuned ≤ 200
unfolding request_size message_value
tuned_bytes = omega arith

-- A hook that changes a role alone leaves a request that is stored as redacted.
abbrev no_user : String → String
no_user text = if text == "user" then "u" else text

role_redacted :
    (build_stored_request (record storage { redact = no_user }) request).request_storage
    ≡ LlmRequestStorage.redacted
unfolding build_stored_request message_value
role_redacted = refl

request-roundtrip_example :
    (command_to_event 0 llm (request_llm_call "llm-0" tuned (hash_llm_request same_text tuned))
      ≡ llm_requested (requested_event llm "llm-0" tuned (hash_llm_request same_text tuned)))
    × (resolve_request same_text registry []
          (read_back column (requested_event llm "llm-0" tuned (hash_llm_request same_text tuned)))
        ≡ found (column tuned))
request-roundtrip_example =
    request-roundtrip storage llm same_text registry [] column 0 "llm-0" tuned column_keeps refl
      refl tuned_left tuned_bytes

shrink_request-bound_example :
    ((shrink_request request 63).messages ≡ [])
    ⊎ (request_size (skeleton request) + contents_size (shrink_request request 63).messages ≤ 63)
shrink_request-bound_example = shrink_request-bound request 63

-- A compiler whose schemas accept `null` alone.
abbrev null_only : Compiler
null_only schema = returned (λ v. elim v [ null ↦ none | _ ↦ some "must be null" ])

abbrev charge : ToolDefinition
charge = record {
  name = "charge";
  description = none;
  args_schema = end;
  handler = λ args key. ran null [];
}

abbrev one_tool : ToolRegistry
one_tool = record {
  tools = ("charge", charge) ∷ [];
  validators = ("charge", λ v. elim v [ null ↦ none | _ ↦ some "must be null" ]) ∷ [];
}

charge_registered : register null_only charge new_registry ≡ returned one_tool
unfolding register get put
charge_registered = refl

registered_twice :
    register null_only charge one_tool ≡ threw "tool \"charge\" is already registered"
unfolding register get put
registered_twice = refl

abbrev Valid : ToolRegistry → String → Value → Type 0
Valid r name args =
    ((get_tool name r ≡ none) × (m : String) × (validate r name args ≡ unknown_tool m))
    ⊎ ((f : Found null_only r name) × (((f.validator args ≡ none) × (validate r name args ≡ ok))
          ⊎ ((f.validator args ≢ none) × (m : String) × (validate r name args ≡ invalid_args m))))

validate-Found_example : Valid one_tool "charge" (str "10")
validate-Found_example =
    validate-Found null_only one_tool "charge" (str "10")
      (registers charge nothing charge_registered)

abbrev no_number : String → Option ℕ
no_number text = none

abbrev overloaded : Thrown
overloaded = api_error "overloaded" (some 529) (λ name. none)

retryable_iff_example :
    ((map_anthropic_error no_number overloaded).retryable ≡ true) ↔ Transient overloaded
retryable_iff_example = retryable_iff no_number overloaded

abbrev env : Env
env name = elim (name == "LLM_PROVIDER") [
  | true ↦ some " Anthropic"
  | false ↦ elim (name == "ANTHROPIC_API_KEY") [ true ↦ some "k" | false ↦ none ]
]

abbrev no_rules : String → Throws (List MockFailureRule)
no_rules text = threw "no rules"

abbrev zero_ms : String → ℕ
zero_ms text = 0

abbrev options : AnthropicOptions
options = record { default_model = "claude-opus-5-5"; default_max_tokens = none }

chosen : choice_of env ≡ "anthropic"
unfolding choice_of
chosen = refl

selected : create_provider_from_env no_rules zero_ms env ≡ returned (anthropic "k" options)
unfolding create_provider_from_env choice_of
selected = refl

anthropic_is_not_mock : choice_of env ≢ "mock"
unfolding choice_of
anthropic_is_not_mock e = absurd cc

no_fallback_example :
    (key : String) × (o : AnthropicOptions) × (anthropic "k" options ≡ anthropic key o)
    × (choice_of env ≡ "anthropic")
    × (env "ANTHROPIC_API_KEY" ≡ some key)
    × (key ≢ "")
no_fallback_example =
    no_fallback env no_rules zero_ms (anthropic "k" options) anthropic_is_not_mock selected

-- A rule that fails the first two attempts.
abbrev twice : MockFailureRule
twice = record {
  on = status_429;
  fail_attempts = 2;
  retry_after_ms = some 50;
  step_id = none;
  request_hash = none;
}

abbrev mock : MockProviderOptions
mock = record { model = none; latency_ms = λ r. 0; failures = some (twice ∷ []) }

abbrev third : LlmCallContext
third = record { workflow_id = "wf"; step_id = "llm-0"; attempt = 3 }

-- The second attempt of another step is let through, and the second attempt of its own step fails.
abbrev second : String → LlmCallContext
second step = record { workflow_id = "wf"; step_id = step; attempt = 2 }

abbrev of_first_step : MockProviderOptions
of_first_step = record mock { failures = some (record twice { step_id = some "llm-0" } ∷ []) }

other_step :
    (complete same_text of_first_step request (some (second "llm-1")) []).1
    ≡ responded (mock_response same_text mock request)
unfolding complete
other_step = refl

own_step :
    (complete same_text of_first_step request (some (second "llm-0")) []).1
    ≡ failed (failure_for twice status_429)
unfolding complete
own_step = refl

complete-scripted_example :
    ((complete same_text mock request (some third) []).0
      ≡ witnessed (hash_llm_request same_text request) (some third) ∷ [])
    × Gives
        (hash_llm_request same_text request)
        (some third)
        (twice ∷ [])
        (complete same_text (unscripted mock) request none []).1
        (complete same_text mock request (some third) []).1
complete-scripted_example = complete-scripted same_text mock request (some third) []
