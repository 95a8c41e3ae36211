-- ===== src/Providers/Classified.antt =====
-- Which failures of the Anthropic client are retried (anthropicProvider.ts).
use karya_kram.Base.{
  ℕ, ◌≤◌, ◌≡◌, ◌↔◌, refl, String, true, Option, none, some, arith, Bool-cases, inl, inr, nat_beq,
  leb,
}
use karya_kram.Providers.Errors.{LlmProviderError}
use karya_kram.Providers.Anthropic.{
  Headers, Thrown, provider_error, connection_timeout, connection_error, api_error, other_error,
  retry_after_ms, classify, map_anthropic_error,
}

-- A failure that may pass: a time-out, a lost connection, a status that says to come again, an error
-- of the server, or what a provider itself calls retryable.
pub data Transient : Thrown → Type 0 where
  passed_on : {e : LlmProviderError} → e.retryable ≡ true → Transient (provider_error e)
  timed_out : {m : String} → Transient (connection_timeout m)
  disconnected : {m : String} → Transient (connection_error m)
  too_many : {m : String} {h : Headers} → Transient (api_error m (some 429) h)
  request_timeout : {m : String} {h : Headers} → Transient (api_error m (some 408) h)
  conflict : {m : String} {h : Headers} → Transient (api_error m (some 409) h)
  server :
      {m : String} {h : Headers} {status : ℕ}
      → 500 ≤ status
      → Transient (api_error m (some status) h)

status-Transient :
    (m : String) (status : ℕ) (h : Headers) (after : Option ℕ)
    → (classify m (some status) after).retryable ≡ true
    → Transient (api_error m (some status) h)
status-Transient m status h after e = elim (Bool-cases (nat_beq status 429)) [
  | inl a ↦ let at : status ≡ 429 = ground arith in rw at too_many
  | inr a ↦ elim (Bool-cases (leb 500 status)) [
    | inl b ↦ server (ground arith)
    | inr b ↦ elim (Bool-cases (nat_beq status 408)) [
      | inl c ↦ let at : status ≡ 408 = ground arith in rw at request_timeout
      | inr c ↦ elim (Bool-cases (nat_beq status 409)) [
        | inl d ↦ let at : status ≡ 409 = ground arith in rw at conflict
        | inr d ↦ absurd (ground arith)
      ]
    ]
  ]
]

retryable-Transient :
    (number : String → Option ℕ) (t : Thrown)
    → (map_anthropic_error number t).retryable ≡ true
    → Transient t
unfolding map_anthropic_error
retryable-Transient number (provider_error e) h = passed_on h
retryable-Transient number (connection_timeout m) h = timed_out
retryable-Transient number (connection_error m) h = disconnected
retryable-Transient number (api_error m none headers) h = absurd cc
retryable-Transient number (api_error m (some status) headers) h =
    status-Transient m status headers (retry_after_ms number headers) h
retryable-Transient number (other_error m) h = absurd cc

Transient-retryable :
    (number : String → Option ℕ) (t : Thrown)
    → Transient t
    → (map_anthropic_error number t).retryable ≡ true
unfolding map_anthropic_error
Transient-retryable number _ (passed_on h) = h
Transient-retryable number _ timed_out = refl
Transient-retryable number _ disconnected = refl
Transient-retryable number _ too_many = refl
Transient-retryable number _ request_timeout = refl
Transient-retryable number _ conflict = refl
Transient-retryable number _ (server {status = status} le) = ground (arith, le)

-- A failure of the Anthropic client becomes a retryable error exactly where it is a time-out, a
-- lost connection, status 408, 409, 429 or from 500 up, or a provider's error that is retryable
-- already; 409 is so against the comment on LlmProviderError, which says that other 4xx are not
-- retryable.
pub retryable_iff :
    (number : String → Option ℕ) (t : Thrown)
    → ((map_anthropic_error number t).retryable ≡ true) ↔ Transient t
retryable_iff number t = (retryable-Transient number t, Transient-retryable number t)
