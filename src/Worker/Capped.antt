-- ===== src/Worker/Capped.antt =====
-- packages/worker-sdk/src/llmConfig.ts, lines 90 to 100 and 157 to 183: what is stored of a response.
-- A text is its characters, each of 1 to 4 UTF-8 bytes, so a cut backs up to the start of a character.
use Prim.Native.Char.{Char, code}
use karya_kram.Base.{ℕ, ◌+◌, ◌-◌, String, Bool, true, false, List, [], ◌∷◌, ltb, leb, if◌then◌else◌}
use karya_kram.Json.{Value, obj, field, end, str}
use karya_kram.Json.Print.{stringify}
use karya_kram.Llm.{LlmToolCall}

unfoldable pub char_bytes : Char → ℕ
char_bytes c =
    let n = code c in
    if ltb n 128 then 1 else if ltb n 2048 then 2 else if ltb n 65536 then 3 else 4

unfoldable pub byte_length : String → ℕ
unfolding char_bytes
byte_length String.[] = 0
byte_length (String.◌∷◌ c s) = char_bytes c + byte_length s

-- The longest prefix of whole characters within the bytes.
unfoldable pub prefix_within : String → ℕ → String
unfolding char_bytes
prefix_within String.[] bytes = ""
prefix_within (String.◌∷◌ c s) bytes =
    let rest = prefix_within s (bytes - char_bytes c) in
    if leb (char_bytes c) bytes then String.◌∷◌ c rest else ""

pub record Truncated : Type 0 where
  pub text : String
  pub truncated : Bool

unfoldable pub truncate_utf8 : String → ℕ → Truncated
unfolding byte_length prefix_within
truncate_utf8 text max_bytes =
    if leb (byte_length text) max_bytes
    then record { text = text; truncated = false }
    else record { text = prefix_within text max_bytes; truncated = true }

pub record CappedResponse : Type 0 where
  pub text : String
  pub tool_calls : List LlmToolCall
  pub truncated : Bool

-- The call as a JSON value.
abbrev pub call_value : LlmToolCall → Value
call_value c =
    obj (field "id" (str c.id) (field "name" (str c.name) (field "arguments" c.arguments end)))

unfoldable pub call_size : LlmToolCall → ℕ
unfolding byte_length stringify
call_size c = byte_length (stringify (call_value c))

-- The calls that still fit are kept, in order; a call that does not is skipped.
unfoldable pub cap_calls : String → Bool → ℕ → List LlmToolCall → CappedResponse
unfolding call_size
cap_calls text truncated remaining [] = record {
  text = text;
  tool_calls = [];
  truncated = truncated;
}
cap_calls text truncated remaining (c ∷ cs) =
    let kept = cap_calls text truncated (remaining - call_size c) cs in
    let skipped = cap_calls text true remaining cs in
    if leb (call_size c) remaining
    then record kept { tool_calls = c ∷ kept.tool_calls }
    else skipped

unfoldable pub cap_response : String → List LlmToolCall → ℕ → CappedResponse
unfolding truncate_utf8 cap_calls byte_length
cap_response text tool_calls max_bytes =
    let cut = truncate_utf8 text max_bytes in
    cap_calls cut.text cut.truncated (max_bytes - byte_length cut.text) tool_calls
