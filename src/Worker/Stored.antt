-- ===== src/Worker/Stored.antt =====
-- packages/worker-sdk/src/llmConfig.ts, lines 90 and 102 to 155: what is stored of a request. The
-- redaction hook is a function of the configuration.
use karya_kram.Base.{
  ℕ, ◌-◌, ◌/◌, String, Bool, not, ◌||◌, Option, none, some, List, [], map, length, leb, ltb,
  nat_beq, ◌==◌, text_eq, if◌then◌else◌,
}
use karya_kram.Json.{
  Value, Items, Fields, undefined, null, bool, num, str, arr, obj, nil, cons, end, field,
}
use karya_kram.Json.Print.{stringify}
use karya_kram.Llm.{
  LlmRequest, LlmMessage, LlmToolDefinition, role_text, role_of, message_items, tool_items,
  canonical_json,
}
use karya_kram.Workflow.Events.{LlmRequestStorage}
use karya_kram.Worker.Capped.{byte_length, truncate_utf8}
use karya_kram.Worker.Replays.{StoredRequest}

-- The part of the configuration that decides on storage.
pub record StorageConfig : Type 0 where
  pub store_prompts : Bool
  pub max_stored_bytes : ℕ
  pub redact : String → String

unfoldable mutual
  pub map_strings : (String → String) → Value → Value
  map_strings fn (str s) = str (fn s)
  map_strings fn (arr xs) = arr (map_items fn xs)
  map_strings fn (obj fs) = obj (map_fields fn fs)
  map_strings fn (num n) = num n
  map_strings fn (bool b) = bool b
  map_strings fn undefined = undefined
  map_strings fn null = null

  pub map_items : (String → String) → Items → Items
  map_items fn nil = nil
  map_items fn (cons v xs) = cons (map_strings fn v) (map_items fn xs)

  pub map_fields : (String → String) → Fields → Fields
  map_fields fn end = end
  map_fields fn (field k v fs) = field k (map_strings fn v) (map_fields fn fs)

-- An optional part of the request.
abbrev map_some {ℓ κ} : {A : Type ℓ} {B : Type κ} → (A → B) → Option A → Option B
map_some f none = none
map_some f (some a) = some (f a)

unfoldable pub map_tool : (String → String) → LlmToolDefinition → LlmToolDefinition
unfolding map_strings
map_tool fn t = record {
  name = fn t.name;
  description = map_some fn t.description;
  input_schema = map_fields fn t.input_schema;
}

abbrev pub with_content : (String → String) → LlmMessage → LlmMessage
with_content fn m = record m { content = fn m.content }

abbrev pub redact_message : (String → String) → LlmMessage → LlmMessage
unfolding role_of
redact_message fn m = record { role = role_of (fn (role_text m.role)); content = fn m.content }

-- `mapStrings` on a request, the roles included.
unfoldable pub redact_request : (String → String) → LlmRequest → LlmRequest
unfolding map_tool map_strings role_of
redact_request fn r = record {
  model = fn r.model;
  messages = map (redact_message fn) r.messages;
  params = map_some (map_fields fn) r.params;
  tools = map_some (map (map_tool fn)) r.tools;
}

-- The object as a JSON value; an absent field is `undefined`.
abbrev params_value : Option Fields → Value
params_value none = undefined
params_value (some fs) = obj fs

abbrev tools_value : Option (List LlmToolDefinition) → Value
unfolding tool_items
tools_value none = undefined
tools_value (some ts) = arr (tool_items ts)

unfoldable pub request_value : LlmRequest → Value
unfolding message_items tools_value
request_value r = obj (
    field "model" (str r.model) (
      field "messages" (arr (message_items r.messages))
        (field "params" (params_value r.params) (field "tools" (tools_value r.tools) end))))

unfoldable pub request_size : LlmRequest → ℕ
unfolding byte_length stringify request_value
request_size r = byte_length (stringify (request_value r))

abbrev pub skeleton : LlmRequest → LlmRequest
skeleton r = record r { messages = map (with_content (λ s. "")) r.messages }

abbrev pub cut_messages : ℕ → List LlmMessage → List LlmMessage
cut_messages bytes ms = map (with_content (λ s. (truncate_utf8 s bytes).text)) ms

abbrev pub per_message : LlmRequest → ℕ → ℕ
per_message r max_bytes = (max_bytes - request_size (skeleton r)) / length r.messages

unfoldable pub shrink_request : LlmRequest → ℕ → LlmRequest
shrink_request r max_bytes =
    if leb max_bytes (request_size (skeleton r)) || nat_beq (length r.messages) 0
    then record { model = r.model; messages = []; params = none; tools = none }
    else record r { messages = cut_messages (per_message r max_bytes) r.messages }

-- `canonicalJson(redacted) !== canonicalJson(request)`
unfoldable pub is_changed : LlmRequest → LlmRequest → Bool
unfolding canonical_json request_value
is_changed redacted request =
    not (canonical_json (request_value redacted) == canonical_json (request_value request))

-- What is stored of a request whose redacted copy is known.
unfoldable pub store_redacted : StorageConfig → LlmRequest → LlmRequest → StoredRequest
unfolding request_size shrink_request is_changed
store_redacted config request redacted =
    if ltb config.max_stored_bytes (request_size redacted)
    then record {
      request_storage = LlmRequestStorage.truncated;
      request = some (shrink_request redacted config.max_stored_bytes);
    }
    else record {
      request_storage =
          if is_changed redacted request
          then LlmRequestStorage.redacted
          else LlmRequestStorage.full;
      request = some redacted;
    }

unfoldable pub build_stored_request : StorageConfig → LlmRequest → StoredRequest
unfolding redact_request store_redacted
build_stored_request config request =
    if not config.store_prompts
    then record { request_storage = LlmRequestStorage.none_stored; request = none }
    else store_redacted config request (redact_request config.redact request)
