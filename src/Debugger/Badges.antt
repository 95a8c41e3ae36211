-- ===== src/Debugger/Badges.antt =====
-- Which events are shown, and which carry the badge of a replayed step (llmView.ts).
use karya_kram.Base.{
  String, Bool, true, false, ◌&&◌, ◌≡◌, refl, Option, none, some, any, ◌==◌, text_eq,
}
use karya_kram.Json.{Value}
use karya_kram.Workflow.Events.{
  LlmRequestStorage, WorkflowEventPayload, workflow_started, activity_scheduled, activity_completed,
  activity_failed, workflow_completed, workflow_failed, timer_scheduled, timer_fired,
  signal_received, cancellation_requested, workflow_canceled, llm_requested, llm_completed,
  llm_failed, tool_requested, tool_completed, tool_failed,
}
use karya_kram.Debugger.View.{is_completion}
use karya_kram.Debugger.Detail.{
  StepDetail, describe_step_event, storage_badges, badge_if, retry_badge,
}

abbrev pub has_badge : String → Option StepDetail → Bool
has_badge badge none = false
has_badge badge (some d) = any (λ b. b == badge) d.badges

abbrev pub is_shown : Option StepDetail → Bool
is_shown none = false
is_shown (some d) = true

-- The events of LLM and tool steps.
abbrev pub is_step_event : WorkflowEventPayload → Bool
is_step_event (llm_requested e) = true
is_step_event (llm_completed e) = true
is_step_event (llm_failed e) = true
is_step_event (tool_requested e) = true
is_step_event (tool_completed e) = true
is_step_event (tool_failed e) = true
is_step_event _ = false

storage-unreplayed : (s : LlmRequestStorage) → any (λ b. b == "replayed") (storage_badges s) ≡ false
storage-unreplayed LlmRequestStorage.full = refl
storage-unreplayed LlmRequestStorage.redacted = refl
storage-unreplayed LlmRequestStorage.truncated = refl
storage-unreplayed LlmRequestStorage.none_stored = refl

retry-unreplayed : (b : Bool) → (retry_badge b == "replayed") ≡ false
retry-unreplayed true = refl
retry-unreplayed false = refl

truncated-unreplayed : (b : Bool) → any (λ b. b == "replayed") (badge_if b "truncated") ≡ false
truncated-unreplayed true = refl
truncated-unreplayed false = refl

-- The debugger shows a detail for an event exactly where it is of an LLM or tool step, and the
-- detail has the badge replayed exactly where the event is a completed step that is told to be
-- replayed.
pub described-badge :
    (json : Value → String) (e : WorkflowEventPayload) (replayed : Bool)
    → (is_shown (describe_step_event json e replayed) ≡ is_step_event e)
      × (has_badge "replayed" (describe_step_event json e replayed) ≡ (replayed && is_completion e))
unfolding describe_step_event
described-badge json (workflow_started a b) true = (refl, refl)
described-badge json (workflow_started a b) false = (refl, refl)
described-badge json (activity_scheduled a b) true = (refl, refl)
described-badge json (activity_scheduled a b) false = (refl, refl)
described-badge json (activity_completed a b) true = (refl, refl)
described-badge json (activity_completed a b) false = (refl, refl)
described-badge json (activity_failed a b) true = (refl, refl)
described-badge json (activity_failed a b) false = (refl, refl)
described-badge json (workflow_completed a) true = (refl, refl)
described-badge json (workflow_completed a) false = (refl, refl)
described-badge json (workflow_failed a) true = (refl, refl)
described-badge json (workflow_failed a) false = (refl, refl)
described-badge json (timer_scheduled a) true = (refl, refl)
described-badge json (timer_scheduled a) false = (refl, refl)
described-badge json (timer_fired a) true = (refl, refl)
described-badge json (timer_fired a) false = (refl, refl)
described-badge json (signal_received a b) true = (refl, refl)
described-badge json (signal_received a b) false = (refl, refl)
described-badge json (cancellation_requested a) true = (refl, refl)
described-badge json (cancellation_requested a) false = (refl, refl)
described-badge json (workflow_canceled a) true = (refl, refl)
described-badge json (workflow_canceled a) false = (refl, refl)
described-badge json (tool_requested e) true = (refl, refl)
described-badge json (tool_requested e) false = (refl, refl)
described-badge json (llm_requested e) true = (refl, storage-unreplayed e.request_storage)
described-badge json (llm_failed e) true = (refl, rw (retry-unreplayed e.retryable) refl)
described-badge json (tool_failed e) true = (refl, rw (retry-unreplayed e.retryable) refl)
described-badge json (llm_requested e) false = (refl, storage-unreplayed e.request_storage)
described-badge json (llm_failed e) false = (refl, rw (retry-unreplayed e.retryable) refl)
described-badge json (tool_failed e) false = (refl, rw (retry-unreplayed e.retryable) refl)
described-badge json (llm_completed e) true = (refl, refl)
described-badge json (llm_completed e) false = (refl, truncated-unreplayed e.truncated)
described-badge json (tool_completed e) true = (refl, refl)
described-badge json (tool_completed e) false = (refl, refl)
