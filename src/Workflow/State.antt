-- ===== src/Workflow/State.antt =====
-- packages/core/src/workflow.ts, lines 190 to 457: the state and the reducer.
use mathlib.Core.List.{foldl}
use karya_kram.Base.{ℕ, Bool, String, Option, none, some, List, [], ◌∷◌, ◌++◌, number_eq, text_eq}
use karya_kram.Base.Dict.{Dict, get, put}
use karya_kram.Json.{Value}
use karya_kram.Llm.{get_or}
use karya_kram.Workflow.Events.{
  LlmRequestedEvent, LlmCompletedEvent, ToolRequestedEvent, ToolCompletedEvent,
  WorkflowEventPayload, workflow_started, activity_scheduled, activity_completed, activity_failed,
  workflow_completed, workflow_failed, timer_scheduled, timer_fired, signal_received,
  cancellation_requested, workflow_canceled, llm_requested, llm_completed, llm_failed,
  tool_requested, tool_completed, tool_failed, StoredWorkflowEvent,
}

pub data ActivityStatus : Type 0 where
  scheduled completed failed : ActivityStatus

pub record ActivityState : Type 0 where
  pub activity_type : String
  pub status : ActivityStatus
  pub result : Option Value
  pub error : Option String

pub data TimerStatus : Type 0 where
  scheduled fired : TimerStatus

pub record TimerState : Type 0 where
  pub fire_at : ℕ
  pub status : TimerStatus

-- LlmCallStatus and ToolCallStatus
pub data StepStatus : Type 0 where
  requested completed failed : StepStatus

pub record LlmCallState : Type 0 where
  pub step_id : String
  pub status : StepStatus
  pub request_hash : String
  pub model : Option String
  pub tokens_in : Option ℕ
  pub tokens_out : Option ℕ
  pub latency_ms : Option ℕ
  pub estimated_cost_usd : Option (Option ℕ)
  pub text : Option String
  pub truncated : Option Bool
  pub error : Option String

pub record ToolCallState : Type 0 where
  pub step_id : String
  pub tool : String
  pub status : StepStatus
  pub args_hash : String
  pub result : Option Value
  pub latency_ms : Option ℕ
  pub error : Option String

pub data WorkflowStatus : Type 0 where
  running completed failed canceled : WorkflowStatus

pub record WorkflowState : Type 0 where
  pub status : WorkflowStatus
  pub workflow_type : Option String
  pub input : Option Value
  pub activities : Dict ℕ ActivityState
  pub timers : Dict ℕ TimerState
  pub llm_calls : Dict ℕ LlmCallState
  pub tool_calls : Dict ℕ ToolCallState
  pub signals : Dict String (List Value)
  pub result : Option Value
  pub error : Option String

abbrev pub initial_state : WorkflowState
initial_state = record {
  status = WorkflowStatus.running;
  workflow_type = none;
  input = none;
  activities = [];
  timers = [];
  llm_calls = [];
  tool_calls = [];
  signals = [];
  result = none;
  error = none;
}

-- `if (!existing) return state;` else the entry at `seq` is written anew.
abbrev pub amend : {V : Type 0} → ℕ → (V → V) → Dict ℕ V → Dict ℕ V
amend seq f m = elim (get seq m) [ none ↦ m | some existing ↦ put seq (f existing) m ]

abbrev new_llm_call : LlmRequestedEvent → LlmCallState
new_llm_call e = record {
  step_id = e.step_id;
  status = StepStatus.requested;
  request_hash = e.request_hash;
  model = none;
  tokens_in = none;
  tokens_out = none;
  latency_ms = none;
  estimated_cost_usd = none;
  text = none;
  truncated = none;
  error = none;
}

abbrev complete_llm_call : LlmCompletedEvent → LlmCallState → LlmCallState
complete_llm_call e existing = record existing {
  status = StepStatus.completed;
  model = some e.model;
  tokens_in = some e.tokens_in;
  tokens_out = some e.tokens_out;
  latency_ms = some e.latency_ms;
  estimated_cost_usd = some e.estimated_cost_usd;
  text = some e.text;
  truncated = some e.truncated;
}

abbrev new_tool_call : ToolRequestedEvent → ToolCallState
new_tool_call e = record {
  step_id = e.step_id;
  tool = e.tool;
  status = StepStatus.requested;
  args_hash = e.args_hash;
  result = none;
  latency_ms = none;
  error = none;
}

abbrev complete_tool_call : ToolCompletedEvent → ToolCallState → ToolCallState
complete_tool_call e existing = record existing {
  status = StepStatus.completed;
  result = some e.result;
  latency_ms = some e.latency_ms;
}

-- One clause for each event type; an unknown `scheduledEventSeq` leaves the state as it is.
apply_payload : WorkflowState → ℕ → WorkflowEventPayload → WorkflowState
apply_payload s seq (workflow_started type input) = record s {
  workflow_type = some type;
  input = some input;
}
apply_payload s seq (activity_scheduled type input) = record s {
  activities =
      put seq
        (record {
          activity_type = type;
          status = ActivityStatus.scheduled;
          result = none;
          error = none;
        })
        s.activities;
}
apply_payload s seq (activity_completed scheduled_seq result) = record s {
  activities =
      amend scheduled_seq
        (λ existing. record existing { status = ActivityStatus.completed; result = some result })
        s.activities;
}
apply_payload s seq (activity_failed scheduled_seq error) = record s {
  activities =
      amend scheduled_seq
        (λ existing. record existing { status = ActivityStatus.failed; error = some error })
        s.activities;
}
apply_payload s seq (workflow_completed result) = record s {
  status = WorkflowStatus.completed;
  result = some result;
}
apply_payload s seq (workflow_failed error) = record s {
  status = WorkflowStatus.failed;
  error = some error;
}
apply_payload s seq (timer_scheduled fire_at) = record s {
  timers = put seq (record { fire_at = fire_at; status = TimerStatus.scheduled }) s.timers;
}
apply_payload s seq (timer_fired scheduled_seq) = record s {
  timers =
      amend scheduled_seq (λ existing. record existing { status = TimerStatus.fired }) s.timers;
}
apply_payload s seq (signal_received name payload) = record s {
  signals = put name (get_or [] (get name s.signals) ++ payload ∷ []) s.signals;
}
apply_payload s seq (cancellation_requested reason) = s
apply_payload s seq (workflow_canceled reason) = record s {
  status = WorkflowStatus.canceled;
  error = reason;
}
apply_payload s seq (llm_requested e) = record s {
  llm_calls = put seq (new_llm_call e) s.llm_calls;
}
apply_payload s seq (llm_completed e) = record s {
  llm_calls = amend e.scheduled_event_seq (complete_llm_call e) s.llm_calls;
}
apply_payload s seq (llm_failed e) = record s {
  llm_calls =
      amend e.scheduled_event_seq
        (λ existing. record existing { status = StepStatus.failed; error = some e.error })
        s.llm_calls;
}
apply_payload s seq (tool_requested e) = record s {
  tool_calls = put seq (new_tool_call e) s.tool_calls;
}
apply_payload s seq (tool_completed e) = record s {
  tool_calls = amend e.scheduled_event_seq (complete_tool_call e) s.tool_calls;
}
apply_payload s seq (tool_failed e) = record s {
  tool_calls =
      amend e.scheduled_event_seq
        (λ existing. record existing { status = StepStatus.failed; error = some e.error })
        s.tool_calls;
}

unfoldable pub apply_event : WorkflowState → StoredWorkflowEvent → WorkflowState
unfolding apply_payload
apply_event s stored = apply_payload s stored.seq stored.event

unfoldable pub fold_events : List StoredWorkflowEvent → WorkflowState
fold_events = foldl apply_event initial_state
