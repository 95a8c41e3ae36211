-- ===== src/Store/Column.antt =====
-- packages/db/src/eventStore.ts, lines 70 to 73: what JSON.stringify leaves of a payload on its way into
-- the JSONB column. Nested undefined is dropped from objects and is null in arrays; a field that is
-- undefined itself is absent, and reads as undefined. The keys of an object keep their order.
use karya_kram.Base.{Option, none, some, map, if◌then◌else◌}
use karya_kram.Json.{
  Value, Items, Fields, undefined, null, bool, num, str, arr, obj, nil, cons, end, field,
  is_undefined, null_if_undefined,
}
use karya_kram.Llm.{LlmRequest, LlmToolDefinition, LlmToolCall}
use karya_kram.Workflow.Events.{
  WorkflowEventPayload, StoredWorkflowEvent, workflow_started, activity_scheduled,
  activity_completed, workflow_completed, signal_received, llm_requested, llm_completed,
  tool_requested, tool_completed,
}

unfoldable mutual
  pub written_value : Value → Value
  written_value (arr xs) = arr (written_items xs)
  written_value (obj fs) = obj (written_fields fs)
  written_value undefined = undefined
  written_value null = null
  written_value (bool b) = bool b
  written_value (num n) = num n
  written_value (str s) = str s

  pub written_items : Items → Items
  written_items nil = nil
  written_items (cons v xs) = cons (null_if_undefined (written_value v)) (written_items xs)

  pub written_fields : Fields → Fields
  written_fields end = end
  written_fields (field k v fs) =
      let rest = written_fields fs in
      if is_undefined v then rest else field k (written_value v) rest

abbrev written_some {ℓ} : {A : Type ℓ} → (A → A) → Option A → Option A
written_some f none = none
written_some f (some a) = some (f a)

abbrev written_tool : LlmToolDefinition → LlmToolDefinition
unfolding written_value
written_tool t = record t { input_schema = written_fields t.input_schema }

abbrev written_request : LlmRequest → LlmRequest
unfolding written_value
written_request r = record r {
  params = written_some written_fields r.params;
  tools = written_some (map written_tool) r.tools;
}

abbrev written_call : LlmToolCall → LlmToolCall
unfolding written_value
written_call c = record c { arguments = written_value c.arguments }

unfoldable pub written_payload : WorkflowEventPayload → WorkflowEventPayload
unfolding written_value
written_payload (workflow_started type input) = workflow_started type (written_value input)
written_payload (activity_scheduled type input) = activity_scheduled type (written_value input)
written_payload (activity_completed seq result) = activity_completed seq (written_value result)
written_payload (workflow_completed result) = workflow_completed (written_value result)
written_payload (signal_received name payload) = signal_received name (written_value payload)
written_payload (llm_requested e) =
    llm_requested (record e { request = written_some written_request e.request })
written_payload (llm_completed e) =
    llm_completed (record e { tool_calls = map written_call e.tool_calls })
written_payload (tool_requested e) = tool_requested (record e { args = written_value e.args })
written_payload (tool_completed e) = tool_completed (record e { result = written_value e.result })
written_payload other = other

unfoldable pub as_written : StoredWorkflowEvent → StoredWorkflowEvent
unfolding written_payload
as_written e = record e { event = written_payload e.event }
