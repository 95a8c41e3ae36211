-- ===== src/Providers/Errors.antt =====
-- packages/llm/src/errors.ts and types.ts: what a provider gives and throws.
use karya_kram.Base.{ℕ, String, Bool, Option, List}
use karya_kram.Llm.{LlmToolCall}

pub data LlmErrorCode : Type 0 where
  rate_limit server_error timeout connection invalid_request auth unknown : LlmErrorCode

pub record LlmProviderError : Type 0 where
  pub message : String
  pub retryable : Bool
  pub code : LlmErrorCode
  pub status : Option ℕ
  pub retry_after_ms : Option ℕ

pub record LlmUsage : Type 0 where
  pub input_tokens : ℕ
  pub output_tokens : ℕ

pub record LlmResponse : Type 0 where
  pub text : String
  pub tool_calls : List LlmToolCall
  pub usage : LlmUsage
  pub latency_ms : ℕ
  pub model : String
  pub stop_reason : Option String

pub record LlmCallContext : Type 0 where
  pub workflow_id : String
  pub step_id : String
  pub attempt : ℕ

pub data ProviderResult : Type 0 where
  responded : LlmResponse → ProviderResult
  failed : LlmProviderError → ProviderResult
