-- ===== src/Replay/Context.antt =====
-- packages/core/src/replay.ts, lines 249 to 417: the variables of one pass, and the methods of `ctx`.
use Prim.Native.String.{◌++◌ as ◌+s+◌}
use karya_kram.Base.{
  ℕ, ◌+◌, String, Option, none, some, List, [], ◌∷◌, ◌++◌, ◌==◌, ◌&&◌, number_eq, text_eq, decimal,
  get_elem?, if◌then◌else◌,
}
use karya_kram.Base.Dict.{Dict, get, put}
use karya_kram.Json.{Value}
use karya_kram.Llm.{LlmRequest, LlmCallResult, get_or, canonical_llm_request, canonical_tool_call}
use karya_kram.Workflow.Events.{LlmCompletedEvent}
use karya_kram.Replay.Program.{
  Call, Promise, resolved, rejected, pending, value, nothing, llm_result, WorkflowCommand,
  schedule_timer, request_llm_call, request_tool_call, NonDeterminismError, activity_mismatch,
  step_request_mismatch, llm, tool,
}
use karya_kram.Replay.Log.{ActivityOutcome, LlmOutcome, ToolOutcome, Log}

pub record Pass : Type 0 where
  pub commands : List WorkflowCommand
  pub call_index : ℕ
  pub timer_call_index : ℕ
  pub llm_call_index : ℕ
  pub tool_call_index : ℕ
  pub signal_call_index : Dict String ℕ
  pub non_determinism_error : Option NonDeterminismError
  pub pending_llm_requests : Dict String LlmRequest

abbrev pub first_pass : Pass
first_pass = record {
  commands = [];
  call_index = 0;
  timer_call_index = 0;
  llm_call_index = 0;
  tool_call_index = 0;
  signal_call_index = [];
  non_determinism_error = none;
  pending_llm_requests = [];
}

abbrev pub push : WorkflowCommand → Pass → Pass
push c p = record p { commands = p.commands ++ c ∷ [] }

abbrev pub abort : NonDeterminismError → Pass → Pass
abort e p = record p { non_determinism_error = some e }

abbrev pub settle_activity : Option ActivityOutcome → Promise
settle_activity none = pending
settle_activity (some (ActivityOutcome.completed result)) = resolved (value result)
settle_activity (some (ActivityOutcome.failed error)) = rejected error

-- `ctx.scheduleActivity`
unfoldable pub schedule_activity : Log → String → Value → Pass → Pass × Promise
schedule_activity log type input p =
    let index = p.call_index in
    let q = record p { call_index = index + 1 } in
    elim (get_elem? log.scheduled_events index) [
      | none ↦ (push (WorkflowCommand.schedule_activity type input) q, pending)
      | some (seq, recorded) ↦
          if recorded == type
          then (q, settle_activity (get seq log.outcome))
          else (abort (activity_mismatch index recorded type) q, pending)
    ]

abbrev settle_timer : Option (Unit {0}) → Promise
settle_timer none = pending
settle_timer (some _) = resolved nothing

-- `ctx.sleep`
unfoldable pub sleep : Log → ℕ → Pass → Pass × Promise
sleep log duration p =
    let index = p.timer_call_index in
    let q = record p { timer_call_index = index + 1 } in
    elim (get_elem? log.timer_events index) [
      | none ↦ (push (schedule_timer duration) q, pending)
      | some seq ↦ (q, settle_timer (get seq log.fired_timers))
    ]

abbrev call_result : LlmCompletedEvent → LlmCallResult
call_result e = record {
  text = e.text;
  tool_calls = e.tool_calls;
  model = e.model;
  tokens_in = e.tokens_in;
  tokens_out = e.tokens_out;
  truncated = e.truncated;
}

-- A requested step with no outcome is remembered, so that its request can be recovered.
abbrev settle_llm : String → LlmRequest → Pass → Option LlmOutcome → Pass × Promise
settle_llm step_id request q none =
    (record q { pending_llm_requests = put step_id request q.pending_llm_requests }, pending)
settle_llm step_id request q (some (LlmOutcome.completed e)) =
    (q, resolved (llm_result (call_result e)))
settle_llm step_id request q (some (LlmOutcome.failed e)) = (q, rejected e.error)

-- `ctx.llmCall`, with `options.hash` given.
unfoldable pub llm_call : (String → String) → Log → LlmRequest → Pass → Pass × Promise
llm_call hash log request p =
    let index = p.llm_call_index in
    let q = record p { llm_call_index = index + 1 } in
    let step_id = "llm-" +s+ decimal index in
    let request_hash = hash (canonical_llm_request request) in
    elim (get_elem? log.llm_requested_events index) [
      | none ↦ (push (request_llm_call step_id request request_hash) q, pending)
      | some (seq, e) ↦
          if e.step_id == step_id && e.request_hash == request_hash
          then settle_llm step_id request q (get seq log.llm_outcomes)
          else (
            abort (step_request_mismatch step_id index e.request_hash request_hash llm) q,
            pending,
          )
    ]

abbrev settle_tool : Option ToolOutcome → Promise
settle_tool none = pending
settle_tool (some (ToolOutcome.completed e)) = resolved (value e.result)
settle_tool (some (ToolOutcome.failed e)) = rejected e.error

-- `ctx.toolCall`, with `options.hash` given.
unfoldable pub tool_call : (String → String) → Log → String → Value → Pass → Pass × Promise
tool_call hash log name args p =
    let index = p.tool_call_index in
    let q = record p { tool_call_index = index + 1 } in
    let step_id = "tool-" +s+ decimal index in
    let args_hash = hash (canonical_tool_call name args) in
    elim (get_elem? log.tool_requested_events index) [
      | none ↦ (push (request_tool_call step_id name args args_hash) q, pending)
      | some (seq, e) ↦
          if e.step_id == step_id && e.args_hash == args_hash
          then (q, settle_tool (get seq log.tool_outcomes))
          else (abort (step_request_mismatch step_id index e.args_hash args_hash tool) q, pending)
    ]

abbrev settle_signal : Option Value → Promise
settle_signal none = pending
settle_signal (some payload) = resolved (value payload)

-- `ctx.waitForSignal`: it emits no command.
unfoldable pub wait_for_signal : Log → String → Pass → Pass × Promise
wait_for_signal log name p =
    let index = get_or 0 (get name p.signal_call_index) in
    (
      record p { signal_call_index = put name (index + 1) p.signal_call_index },
      settle_signal (get_elem? (get_or [] (get name log.signal_events)) index),
    )

-- A method of `ctx` called. With no `options.hash`, `llmCall` and `toolCall` throw at once.
pub data Invoked : Type 0 where
  returned : Pass → Promise → Invoked
  raised : String → Invoked

abbrev returned_pair : Pass × Promise → Invoked
returned_pair (p, r) = returned p r

unfoldable pub invoke : Option (String → String) → Log → Call → Pass → Invoked
unfolding schedule_activity sleep llm_call tool_call wait_for_signal
invoke hash log (Call.schedule_activity type input) p =
    returned_pair (schedule_activity log type input p)
invoke hash log (Call.sleep duration) p = returned_pair (sleep log duration p)
invoke hash log (Call.wait_for_signal name) p = returned_pair (wait_for_signal log name p)
invoke (some hash) log (Call.llm_call request) p = returned_pair (llm_call hash log request p)
invoke (some hash) log (Call.tool_call name args) p = returned_pair (tool_call hash log name args p)
invoke none log (Call.llm_call request) p =
    raised "replay: options.hash is required to use ctx.llmCall"
invoke none log (Call.tool_call name args) p =
    raised "replay: options.hash is required to use ctx.toolCall"
