-- ===== src/Providers/Anthropic.antt =====
-- packages/llm/src/anthropicProvider.ts. The SDK's client is a function of the parameters, which gives a
-- message or an error of one of its classes. `number` is Number(…) of a header, `none` where it is not
-- finite; a negative header counts as 0.
use Prim.Native.String.{◌++◌ as ◌+s+◌}
use karya_kram.Base.{
  ℕ, ◌*◌, String, Bool, true, false, not, ◌||◌, Option, none, some, List, [], ◌∷◌, map, select, leb,
  nat_beq, ◌==◌, text_eq, if◌then◌else◌,
}
use karya_kram.Base.Words.{join}
use karya_kram.Json.{Value, Fields, num, end}
use karya_kram.Llm.{
  LlmRole, system, assistant, LlmMessage, LlmRequest, LlmToolCall, LlmToolDefinition, get_or,
}
use karya_kram.Providers.Errors.{
  LlmErrorCode, LlmProviderError, LlmUsage, ProviderResult, responded, failed,
}
use karya_kram.Providers.Mock.{get_field}

abbrev pub Headers : Type 0
Headers = String → Option String

-- What a call of the client may throw.
pub data Thrown : Type 0 where
  provider_error : LlmProviderError → Thrown
  connection_timeout : String → Thrown
  connection_error : String → Thrown
  api_error : String → Option ℕ → Headers → Thrown
  other_error : String → Thrown

abbrev number_of : (String → Option ℕ) → Option String → Option ℕ
number_of number none = none
number_of number (some text) = number text

abbrev seconds_ms : Option ℕ → Option ℕ
seconds_ms none = none
seconds_ms (some s) = some (s * 1000)

abbrev first_of : Option ℕ → Option ℕ → Option ℕ
first_of none b = b
first_of (some a) b = some a

unfoldable pub retry_after_ms : (String → Option ℕ) → Headers → Option ℕ
retry_after_ms number headers =
    first_of (number_of number (headers "retry-after-ms"))
      (seconds_ms (number_of number (headers "retry-after")))

abbrev status_is : ℕ → Option ℕ → Bool
status_is wanted none = false
status_is wanted (some status) = nat_beq status wanted

abbrev at_least : ℕ → Option ℕ → Bool
at_least bound none = false
at_least bound (some status) = leb bound status

abbrev api_failure : String → Option ℕ → Option ℕ → Bool → LlmErrorCode → LlmProviderError
api_failure message status after retryable code = record {
  message = message;
  retryable = retryable;
  code = code;
  status = some (get_or 0 status);
  retry_after_ms = after;
}

abbrev pub classify : String → Option ℕ → Option ℕ → LlmProviderError
classify message status after =
    if status_is 429 status
    then api_failure message status after true LlmErrorCode.rate_limit
    else if at_least 500 status || status_is 408 status || status_is 409 status
    then api_failure message status after true LlmErrorCode.server_error
    else if status_is 401 status || status_is 403 status
    then api_failure message status after false LlmErrorCode.auth
    else api_failure message status after false LlmErrorCode.invalid_request

unfoldable pub map_anthropic_error : (String → Option ℕ) → Thrown → LlmProviderError
unfolding retry_after_ms
map_anthropic_error number (provider_error e) = e
map_anthropic_error number (connection_timeout message) = record {
  message = message;
  retryable = true;
  code = LlmErrorCode.timeout;
  status = none;
  retry_after_ms = none;
}
map_anthropic_error number (connection_error message) = record {
  message = message;
  retryable = true;
  code = LlmErrorCode.connection;
  status = none;
  retry_after_ms = none;
}
map_anthropic_error number (api_error message status headers) =
    classify message status (retry_after_ms number headers)
map_anthropic_error number (other_error message) = record {
  message = message;
  retryable = false;
  code = LlmErrorCode.unknown;
  status = none;
  retry_after_ms = none;
}

abbrev pub is_system : LlmRole → Bool
is_system system = true
is_system _ = false

abbrev pub is_assistant : LlmRole → Bool
is_assistant assistant = true
is_assistant _ = false

pub record MessageParam : Type 0 where
  pub from_assistant : Bool
  pub content : String

pub record ToolParam : Type 0 where
  pub name : String
  pub description : Option String
  pub input_schema : Fields

pub record MessageCreateParams : Type 0 where
  pub model : String
  pub max_tokens : String
  pub messages : List MessageParam
  pub system : Option String
  pub temperature : Option String
  pub tools : Option (List ToolParam)

abbrev non_empty : String → Option String
non_empty text = if text == "" then none else some text

abbrev described : Option String → Option String
described none = none
described (some text) = non_empty text

abbrev tool_param : LlmToolDefinition → ToolParam
tool_param t = record {
  name = t.name;
  description = described t.description;
  input_schema = t.input_schema;
}

abbrev tool_params : Option (List LlmToolDefinition) → Option (List ToolParam)
tool_params none = none
tool_params (some []) = none
tool_params (some (t ∷ ts)) = some (map tool_param (t ∷ ts))

-- A number is held as its text, as in JSON.
abbrev number_field : Option Value → Option String
number_field (some (num n)) = some n
number_field _ = none

abbrev message_param : LlmMessage → MessageParam
message_param m = record { from_assistant = is_assistant m.role; content = m.content }

pub record AnthropicOptions : Type 0 where
  pub default_model : String
  pub default_max_tokens : Option String

unfoldable pub build_params : AnthropicOptions → LlmRequest → MessageCreateParams
unfolding join get_field
build_params options request =
    let params = get_or end request.params in
    record {
      model =
          if request.model == "default" || request.model == ""
          then options.default_model
          else request.model;
      max_tokens =
          get_or (get_or "4096" options.default_max_tokens)
            (number_field (get_field "maxTokens" params));
      messages = map message_param (select (λ m. not (is_system m.role)) request.messages);
      system =
          non_empty
            (join "\n\n" (map (λ m. m.content) (select (λ m. is_system m.role) request.messages)));
      temperature = number_field (get_field "temperature" params);
      tools = tool_params request.tools;
    }

pub data Block : Type 0 where
  text_block : String → Block
  tool_use : LlmToolCall → Block
  other_block : Block

pub record Message : Type 0 where
  pub content : List Block
  pub usage : LlmUsage
  pub model : String
  pub stop_reason : Option String

pub data ClientResult : Type 0 where
  message : Message → ClientResult
  throws : Thrown → ClientResult

unfoldable pub text_of : List Block → String
text_of [] = ""
text_of (text_block s ∷ bs) = s +s+ text_of bs
text_of (tool_use c ∷ bs) = text_of bs
text_of (other_block ∷ bs) = text_of bs

unfoldable pub tool_calls_of : List Block → List LlmToolCall
tool_calls_of [] = []
tool_calls_of (text_block s ∷ bs) = tool_calls_of bs
tool_calls_of (tool_use c ∷ bs) = c ∷ tool_calls_of bs
tool_calls_of (other_block ∷ bs) = tool_calls_of bs

abbrev answer : (String → Option ℕ) → ℕ → ClientResult → ProviderResult
unfolding map_anthropic_error text_of tool_calls_of
answer number latency_ms (throws thrown) = failed (map_anthropic_error number thrown)
answer number latency_ms (message m) = responded (record {
  text = text_of m.content;
  tool_calls = tool_calls_of m.content;
  usage = m.usage;
  latency_ms = latency_ms;
  model = m.model;
  stop_reason = m.stop_reason;
})

unfoldable pub complete :
    (MessageCreateParams → ClientResult)
    → (String → Option ℕ)
    → AnthropicOptions
    → ℕ
    → LlmRequest
    → ProviderResult
unfolding build_params answer
complete client number options latency_ms request =
    answer number latency_ms (client (build_params options request))
