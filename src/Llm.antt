-- ===== src/Llm.antt =====
-- packages/core/src/llm.ts: requests of LLM steps, and the exact texts that are hashed.

use karya_kram.Base.{
  String, ℕ, Bool, Option, none, some, List, [], ◌∷◌, ◌==◌, text_eq, if◌then◌else◌,
}
use karya_kram.Json.{
  Value, Items, Fields, str, arr, obj, nil, cons, end, field, undefined, null_if_undefined,
  canonicalize,
}
use karya_kram.Json.Print.{stringify}

-- The four roles. A cast lets any other text through at run time, such as a redacted role.
pub data LlmRole : Type 0 where
  system user assistant tool : LlmRole
  other : String → LlmRole

pub record LlmMessage : Type 0 where
  pub role : LlmRole
  pub content : String

pub record LlmToolDefinition : Type 0 where
  pub name : String
  pub description : Option String
  pub input_schema : Fields

pub record LlmRequest : Type 0 where
  pub model : String
  pub messages : List LlmMessage
  pub params : Option Fields
  pub tools : Option (List LlmToolDefinition)

pub record LlmToolCall : Type 0 where
  pub id : String
  pub name : String
  pub arguments : Value

-- What `ctx.llmCall` resolves with.
pub record LlmCallResult : Type 0 where
  pub text : String
  pub tool_calls : List LlmToolCall
  pub model : String
  pub tokens_in : ℕ
  pub tokens_out : ℕ
  pub truncated : Bool

pub record NormalizedLlmRequest : Type 0 where
  pub model : String
  pub messages : List LlmMessage
  pub params : Fields
  pub tools : List LlmToolDefinition

abbrev pub get_or {ℓ} : {A : Type ℓ} → A → Option A → A
get_or d none = d
get_or d (some a) = a

-- `{}` and absent are one.
unfoldable pub normalize_llm_request : LlmRequest → NormalizedLlmRequest
normalize_llm_request r = record {
  model = r.model;
  messages = r.messages;
  params = get_or end r.params;
  tools = get_or [] r.tools;
}

abbrev pub role_text : LlmRole → String
role_text system = "system"
role_text user = "user"
role_text assistant = "assistant"
role_text tool = "tool"
role_text (other s) = s

-- The role that a text is.
unfoldable pub role_of : String → LlmRole
role_of s =
    if s == "system"
    then system
    else if s == "user"
    then user
    else if s == "assistant"
    then assistant
    else if s == "tool"
    then tool
    else other s

-- The objects as JSON values.
unfoldable pub message_value : LlmMessage → Value
message_value m = obj (field "role" (str (role_text m.role)) (field "content" (str m.content) end))

optional_text : Option String → Value
optional_text none = undefined
optional_text (some s) = str s

unfoldable pub tool_value : LlmToolDefinition → Value
unfolding optional_text
tool_value t = obj (
    field "name" (str t.name) (
      field "description" (optional_text t.description)
        (field "inputSchema" (obj t.input_schema) end)))

unfoldable pub message_items : List LlmMessage → Items
message_items [] = nil
message_items (m ∷ ms) = cons (message_value m) (message_items ms)

unfoldable pub tool_items : List LlmToolDefinition → Items
tool_items [] = nil
tool_items (t ∷ ts) = cons (tool_value t) (tool_items ts)

unfoldable pub normalized_value : NormalizedLlmRequest → Value
unfolding message_value message_items tool_value tool_items
normalized_value r = obj (
    field "model" (str r.model) (
      field "messages" (arr (message_items r.messages))
        (field "params" (obj r.params) (field "tools" (arr (tool_items r.tools)) end))))

-- Deterministic JSON.
unfoldable pub canonical_json : Value → String
unfolding canonicalize stringify
canonical_json v = stringify (canonicalize v)

-- The exact text that a request hash is computed over.
unfoldable pub canonical_llm_request : LlmRequest → String
unfolding canonical_json normalized_value normalize_llm_request
canonical_llm_request r = canonical_json (normalized_value (normalize_llm_request r))

-- The exact text that a tool call's hash is computed over.
unfoldable pub canonical_tool_call : String → Value → String
unfolding canonical_json
canonical_tool_call name args =
    canonical_json (obj (field "tool" (str name) (field "args" (null_if_undefined args) end)))
