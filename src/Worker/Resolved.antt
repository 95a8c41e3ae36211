-- ===== src/Worker/Resolved.antt =====
-- The request that is sent to the provider (llmHandler.ts, lines 36 to 81).
use karya_kram.Base.{◌≡◌, String, List, Option-cases, Bool-cases, inl, inr, eq_iff, ◌==◌, text_eq}
use karya_kram.Llm.{LlmRequest}
use karya_kram.Workflow.Events.{LlmRequestedEvent, StoredWorkflowEvent}
use karya_kram.Replay.Program.{ReplayOutcome, threw, replayed}
use karya_kram.Worker.Replays.{Registry, started_event}
use karya_kram.Worker.LlmHandler.{
  hash_llm_request, ResolvedRequest, found, unavailable, full_request, checked_request,
  pending_request, derived_request, resolve_request,
}

-- What is found hashes to what was recorded.
abbrev IsMatch : (String → String) → LlmRequestedEvent → ResolvedRequest → Type 0
IsMatch hash e (found request) = hash_llm_request hash request ≡ e.request_hash
IsMatch hash e (unavailable reason) = Unit

checked_request-IsMatch :
    (hash : String → String) (e : LlmRequestedEvent) (reason : String) (request : LlmRequest)
    → IsMatch hash e (checked_request hash e reason request)
checked_request-IsMatch hash e reason request =
    elim (Bool-cases (hash_llm_request hash request == e.request_hash)) [
      | inl h ↦ rw (h, IsMatch) ((eq_iff _ _).0 h)
      | inr h ↦ rw (h, IsMatch) tt
    ]

derived_request-IsMatch :
    (hash : String → String) (e : LlmRequestedEvent) (o : ReplayOutcome)
    → IsMatch hash e (derived_request hash e o)
derived_request-IsMatch hash e (threw error) = tt
derived_request-IsMatch hash e (replayed r) = elim (Option-cases (pending_request e r)) [
  | inl h ↦ rw (h, IsMatch) tt
  | inr (request, h) ↦ rw (h, IsMatch) (checked_request-IsMatch hash e _ request)
]

resolve_request-IsMatch :
    (hash : String → String) (registry : Registry) (history : List StoredWorkflowEvent)
    (e : LlmRequestedEvent)
    → IsMatch hash e (resolve_request hash registry history e)
unfolding resolve_request
resolve_request-IsMatch hash registry history e = elim (Option-cases (full_request e)) [
  | inr (request, h) ↦ rw (h, IsMatch) (checked_request-IsMatch hash e _ request)
  | inl h ↦
      rw (h, IsMatch)
        (elim (Option-cases (started_event history)) [
          | inl s ↦ rw (s, IsMatch) tt
          | inr ((type, input), s) ↦
              rw (s, IsMatch)
                (elim (Option-cases (registry type)) [
                  | inl r ↦ rw (r, IsMatch) tt
                  | inr (fn, r) ↦ rw (r, IsMatch) (derived_request-IsMatch hash e _)
                ])
        ])
]

-- Whether the stored copy is used or the request is rebuilt by a replay, a request that the
-- resolution of an LLM step finds hashes to the hash recorded when the step was requested.
pub resolved_request-hash :
    (hash : String → String) (registry : Registry) (history : List StoredWorkflowEvent)
    (e : LlmRequestedEvent) (request : LlmRequest)
    → resolve_request hash registry history e ≡ found request
    → hash_llm_request hash request ≡ e.request_hash
resolved_request-hash hash registry history e request h =
    rw h at (resolve_request-IsMatch hash registry history e)
