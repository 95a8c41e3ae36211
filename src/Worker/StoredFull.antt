-- ===== src/Worker/StoredFull.antt =====
-- A request through the event log and back (workflowReplayHandler.ts, llmConfig.ts, llmHandler.ts).
use native.Mathlib.Nat.{div-add-mod}
use mathlib.Core.Option
use karya_kram.Base.{
  ℕ, ◌+◌, ◌-◌, ◌*◌, ◌≤◌, ◌≡◌, refl, ap, ◌∙◌, String, true, false, not, ◌||◌, some, List, [], ◌∷◌,
  arith, length, leb, ltb, nat_beq, text_eq, beq_refl, Bool-cases, inl, inr, ◌⊎◌,
}
use karya_kram.Llm.{LlmRequest, LlmMessage, canonical_json, canonical_llm_request}
use karya_kram.Workflow.Events.{
  LlmRequestStorage, LlmRequestedEvent, StoredWorkflowEvent, llm_requested,
}
use karya_kram.Replay.Program.{request_llm_call}
use karya_kram.Worker.Capped.{byte_length}
use karya_kram.Worker.CappedBounds.{truncate_utf8-bound}
use karya_kram.Worker.Replays.{LlmStepConfig, Registry, command_to_event}
use karya_kram.Worker.LlmHandler.{hash_llm_request, found, resolve_request}
use karya_kram.Worker.Stored.{
  StorageConfig, redact_request, request_value, request_size, skeleton, cut_messages, per_message,
  shrink_request, is_changed, store_redacted, build_stored_request,
}

is_changed_self : (request : LlmRequest) → is_changed request request ≡ false
unfolding is_changed
is_changed_self request = ap not (beq_refl (canonical_json (request_value request)))

store_same :
    (config : StorageConfig) (request : LlmRequest)
    → request_size request ≤ config.max_stored_bytes
    → store_redacted config request request
      ≡ record { request_storage = LlmRequestStorage.full; request = some request }
unfolding store_redacted
store_same config request fits =
    let small : ltb config.max_stored_bytes (request_size request) ≡ false = ground (arith, fits) in
    rw (small, is_changed_self request) refl

-- A request that the hook leaves alone and that fits is stored as it is.
stored_full :
    (config : StorageConfig) (request : LlmRequest)
    → config.store_prompts ≡ true
    → redact_request config.redact request ≡ request
    → request_size request ≤ config.max_stored_bytes
    → build_stored_request config request
      ≡ record { request_storage = LlmRequestStorage.full; request = some request }
unfolding build_stored_request
stored_full config request stores same fits =
    rw stores (ap (store_redacted config request) same ∙ store_same config request fits)

-- The event that a command records for an LLM call.
abbrev pub requested_event : LlmStepConfig → String → LlmRequest → String → LlmRequestedEvent
requested_event llm step_id request request_hash =
    let stored = llm.build_stored_request request in
    record {
      step_id = step_id;
      request_hash = request_hash;
      request_storage = stored.request_storage;
      request = stored.request;
      max_attempts = llm.max_attempts;
    }

-- The event as the JSONB column gives it back, where `jsonb` is what it makes of a request.
abbrev pub read_back : (LlmRequest → LlmRequest) → LlmRequestedEvent → LlmRequestedEvent
read_back jsonb e = record e { request = Option.map jsonb e.request }

-- Where prompts are stored, the redaction hook leaves the request as it is, its roles included,
-- the request fits the size cap, and the JSONB column keeps its canonical text, the command of an
-- LLM call is recorded as an LLM_REQUESTED event, and from the event as the column gives it back
-- the step's handler resolves the request as the column gives it back, whatever the registry and
-- the history are.
pub request-roundtrip :
    (config : StorageConfig) (llm : LlmStepConfig) (hash : String → String) (registry : Registry)
    (history : List StoredWorkflowEvent) (jsonb : LlmRequest → LlmRequest) (now : ℕ)
    (step_id : String) (request : LlmRequest)
    → canonical_llm_request (jsonb request) ≡ canonical_llm_request request
    → llm.build_stored_request ≡ build_stored_request config
    → config.store_prompts ≡ true
    → redact_request config.redact request ≡ request
    → request_size request ≤ config.max_stored_bytes
    → let recorded = requested_event llm step_id request (hash_llm_request hash request) in
      (command_to_event now llm (request_llm_call step_id request (hash_llm_request hash request))
        ≡ llm_requested recorded)
      × (resolve_request hash registry history (read_back jsonb recorded) ≡ found (jsonb request))
unfolding resolve_request hash_llm_request
request-roundtrip config llm hash registry history jsonb now step_id request keeps built stores same
      fits =
    (
      refl,
      rw
          (
            built,
            stored_full config request stores same fits,
            keeps,
            beq_refl (hash (canonical_llm_request request)),
          )
          refl,
    )

-- The bytes of the messages' contents.
abbrev pub contents_size : List LlmMessage → ℕ
contents_size [] = 0
contents_size (m ∷ ms) = byte_length m.content + contents_size ms

messages-bound :
    (bytes : ℕ) (ms : List LlmMessage) → contents_size (cut_messages bytes ms) ≤ length ms * bytes
messages-bound bytes [] = omega arith
messages-bound bytes (m ∷ ms) =
    omega (arith, truncate_utf8-bound m.content bytes, messages-bound bytes ms)

-- A shrunken request has no messages, or its contents' bytes, before they are escaped as JSON,
-- with the size of the request whose contents are empty are at most the cap.
pub shrink_request-bound :
    (r : LlmRequest) (max_bytes : ℕ)
    → ((shrink_request r max_bytes).messages ≡ [])
      ⊎ (request_size (skeleton r) + contents_size (shrink_request r max_bytes).messages
          ≤ max_bytes)
unfolding shrink_request
shrink_request-bound r max_bytes =
    let size = request_size (skeleton r) in
    elim (Bool-cases (leb max_bytes size || nat_beq (length r.messages) 0)) [
      | inl e ↦ rw e (inl refl)
      | inr e ↦
          let less : size ≤ max_bytes = ground arith in
          let shared = messages-bound (per_message r max_bytes) r.messages in
          let whole = div-add-mod (max_bytes - size) (length r.messages) in
          rw e (inr (omega (arith, shared, whole, less)))
    ]
