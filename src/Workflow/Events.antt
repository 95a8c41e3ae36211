-- ===== src/Workflow/Events.antt =====
-- packages/core/src/workflow.ts, lines 9 to 188: the event types, and an event as stored.
use karya_kram.Base.{ℕ, Bool, String, Option, List}
use karya_kram.Json.{Value}
use karya_kram.Llm.{LlmRequest, LlmToolCall}

pub data LlmRequestStorage : Type 0 where
  full redacted truncated none_stored : LlmRequestStorage

pub record LlmRequestedEvent : Type 0 where
  pub step_id : String
  pub request_hash : String
  pub request_storage : LlmRequestStorage
  pub request : Option LlmRequest
  pub max_attempts : ℕ

pub record LlmCompletedEvent : Type 0 where
  pub step_id : String
  pub scheduled_event_seq : ℕ
  pub request_hash : String
  pub text : String
  pub tool_calls : List LlmToolCall
  pub truncated : Bool
  pub model : String
  pub tokens_in : ℕ
  pub tokens_out : ℕ
  pub latency_ms : ℕ
  pub estimated_cost_usd : Option ℕ
  pub attempt : ℕ

pub record LlmFailedEvent : Type 0 where
  pub step_id : String
  pub scheduled_event_seq : ℕ
  pub error : String
  pub code : String
  pub retryable : Bool
  pub attempts : ℕ

pub record ToolRequestedEvent : Type 0 where
  pub step_id : String
  pub tool : String
  pub args : Value
  pub args_hash : String
  pub max_attempts : ℕ

pub record ToolCompletedEvent : Type 0 where
  pub step_id : String
  pub scheduled_event_seq : ℕ
  pub tool : String
  pub result : Value
  pub latency_ms : ℕ
  pub attempt : ℕ

pub record ToolFailedEvent : Type 0 where
  pub step_id : String
  pub scheduled_event_seq : ℕ
  pub tool : String
  pub error : String
  pub code : String
  pub retryable : Bool
  pub attempts : ℕ

pub data WorkflowEventPayload : Type 0 where
  -- workflow type and input
  workflow_started : String → Value → WorkflowEventPayload
  -- activity type and input
  activity_scheduled : String → Value → WorkflowEventPayload
  -- the seq of the scheduling event, and the outcome
  activity_completed : ℕ → Value → WorkflowEventPayload
  activity_failed : ℕ → String → WorkflowEventPayload
  workflow_completed : Value → WorkflowEventPayload
  workflow_failed : String → WorkflowEventPayload
  -- when it should fire
  timer_scheduled : ℕ → WorkflowEventPayload
  timer_fired : ℕ → WorkflowEventPayload
  -- signal name and payload
  signal_received : String → Value → WorkflowEventPayload
  cancellation_requested : Option String → WorkflowEventPayload
  workflow_canceled : Option String → WorkflowEventPayload
  llm_requested : LlmRequestedEvent → WorkflowEventPayload
  llm_completed : LlmCompletedEvent → WorkflowEventPayload
  llm_failed : LlmFailedEvent → WorkflowEventPayload
  tool_requested : ToolRequestedEvent → WorkflowEventPayload
  tool_completed : ToolCompletedEvent → WorkflowEventPayload
  tool_failed : ToolFailedEvent → WorkflowEventPayload

pub record StoredWorkflowEvent : Type 0 where
  pub seq : ℕ
  pub event : WorkflowEventPayload
