-- ===== src/Providers/Recovers.antt =====
-- The scripted failures of the mock provider (mockProvider.ts).
use karya_kram.Base.{
  ℕ, ◌≤◌, ◌≡◌, ◌≢◌, ◌↔◌, refl, ap, String, Bool, true, false, ◌&&◌, Option, none, some, List, [],
  ◌∷◌, ◌++◌, arith, leb, Bool-cases, inl, inr, ◌⊎◌, ◌==◌, text_eq,
}
use karya_kram.Llm.{LlmRequest, get_or}
use karya_kram.Worker.LlmHandler.{hash_llm_request}
use karya_kram.Providers.Errors.{LlmProviderError, LlmCallContext, ProviderResult, failed}
use karya_kram.Providers.Mock.{
  MockFailureOn, status_429, status_500, status_503, status_400, timeout, MockFailureRule,
  MockProviderOptions, ProviderCallRecord, matches, applies, failure_for, maybe_fail, mock_response,
  result_of, audit_row, complete,
}

-- A restriction that is absent, or that names this text.
abbrev Allows : Option String → String → Type 0
Allows restriction text = (restriction ≡ none) ⊎ (restriction ≡ some text)

-- What the comments on a rule say: it fails the attempts up to its number, of its step where it
-- names one, and of its request where it has a hash. A call without a context is a first attempt
-- of no step.
abbrev pub IsScripted : String → Option LlmCallContext → MockFailureRule → Type 0
IsScripted h none rule =
    (1 ≤ rule.fail_attempts) × (rule.step_id ≡ none) × Allows rule.request_hash h
IsScripted h (some ctx) rule =
    (ctx.attempt ≤ rule.fail_attempts)
    × Allows rule.step_id ctx.step_id
    × Allows rule.request_hash h

-- The call as the audit has it.
abbrev pub witnessed : String → Option LlmCallContext → ProviderCallRecord
witnessed h none = record {
  workflow_id = "unknown";
  step_id = "unknown";
  request_hash = h;
  attempt = 1;
}
witnessed h (some ctx) = record {
  workflow_id = ctx.workflow_id;
  step_id = ctx.step_id;
  request_hash = h;
  attempt = ctx.attempt;
}

abbrev status_of : MockFailureOn → Option ℕ
status_of status_429 = some 429
status_of status_500 = some 500
status_of status_503 = some 503
status_of status_400 = some 400
status_of timeout = none

-- An error has the status of its rule, and may be retried unless that is 400.
abbrev pub FailsAs : MockFailureOn → LlmProviderError → Type 0
FailsAs on e = (e.status ≡ status_of on) × ((e.retryable ≡ true) ↔ (on ≢ status_400))

failure_for-FailsAs :
    (rule : MockFailureRule) (on : MockFailureOn) → FailsAs on (failure_for rule on)
failure_for-FailsAs rule status_429 = (refl, ((λ h e. absurd cc), λ h. refl))
failure_for-FailsAs rule status_500 = (refl, ((λ h e. absurd cc), λ h. refl))
failure_for-FailsAs rule status_503 = (refl, ((λ h e. absurd cc), λ h. refl))
failure_for-FailsAs rule status_400 = (refl, ((λ h. absurd cc), λ h. absurd (h refl)))
failure_for-FailsAs rule timeout = (refl, ((λ h e. absurd cc), λ h. refl))

audit_row-witnessed : (h : String) (ctx : Option LlmCallContext) → audit_row h ctx ≡ witnessed h ctx
audit_row-witnessed h none = refl
audit_row-witnessed h (some ctx) = refl

both : (n m : ℕ) (b c : Bool) → n ≤ m → b ≡ true → c ≡ true → (leb n m && b && c) ≡ true
both n m b c le hb hc = ground arith

apart : {b : Bool} → b ≡ true → b ≡ false → ⊥
apart h k = cc

-- The first rule that is scripted for the call, after those that are not.
pub data FirstOf (h : String) (ctx : Option LlmCallContext)
    : List MockFailureRule → MockFailureRule → Type 0 where
  here :
      {rule : MockFailureRule} {rules : List MockFailureRule}
      → IsScripted h ctx rule
      → FirstOf h ctx (rule ∷ rules) rule
  after :
      {other rule : MockFailureRule} {rules : List MockFailureRule}
      → ¬ IsScripted h ctx other
      → FirstOf h ctx rules rule
      → FirstOf h ctx (other ∷ rules) rule

abbrev pub NoneOf : String → Option LlmCallContext → List MockFailureRule → Type 0
NoneOf h ctx [] = Unit
NoneOf h ctx (rule ∷ rules) = (¬ IsScripted h ctx rule) × NoneOf h ctx rules

matches-Allows : (o : Option String) (t : String) → (matches o (some t) ≡ true) ↔ Allows o t
matches-Allows none t = ((λ h. inl refl), λ h. refl)
matches-Allows (some s) t = ((λ h. inr (ap some ((text_eq.equals_iff s t).0 h))), λ a. named a)
  where
    named : Allows (some s) t → (s == t) ≡ true
    named (inl h) = absurd cc
    named (inr h) = (text_eq.equals_iff s t).1 cc

matches-nothing : (o : Option String) → (matches o none ≡ true) ↔ (o ≡ none)
matches-nothing none = ((λ h. refl), λ h. refl)
matches-nothing (some s) = ((λ h. absurd cc), λ h. absurd cc)

applies-IsScripted :
    (h : String) (ctx : Option LlmCallContext) (rule : MockFailureRule)
    → (applies h ctx rule ≡ true) ↔ IsScripted h ctx rule
applies-IsScripted h none rule =
    let step = matches-nothing rule.step_id in
    let hash = matches-Allows rule.request_hash h in
    (
      (λ a. (ground arith, step.0 (ground arith), hash.0 (ground arith))),
      λ s. both 1 rule.fail_attempts _ _ s.0 (step.1 s.1) (hash.1 s.2),
    )
applies-IsScripted h (some ctx) rule =
    let step = matches-Allows rule.step_id ctx.step_id in
    let hash = matches-Allows rule.request_hash h in
    (
      (λ a. (ground arith, step.0 (ground arith), hash.0 (ground arith))),
      λ s. both ctx.attempt rule.fail_attempts _ _ s.0 (step.1 s.1) (hash.1 s.2),
    )

-- What a call gives: the answer where no rule is scripted for it, or the first one's failure.
abbrev pub Gives :
    String → Option LlmCallContext → List MockFailureRule → ProviderResult → ProviderResult → Type 0
Gives h ctx rules answer r =
    (NoneOf h ctx rules × (r ≡ answer))
    ⊎ ((rule : MockFailureRule) × FirstOf h ctx rules rule
        × (e : LlmProviderError) × (r ≡ failed e)
        × FailsAs rule.on e)

maybe_fail-Gives :
    (h : String) (ctx : Option LlmCallContext) (rules : List MockFailureRule)
    → (NoneOf h ctx rules × (maybe_fail rules h ctx ≡ none))
      ⊎ ((rule : MockFailureRule) × FirstOf h ctx rules rule
          × (e : LlmProviderError) × (maybe_fail rules h ctx ≡ some e)
          × FailsAs rule.on e)
unfolding maybe_fail
maybe_fail-Gives h ctx [] = inl (tt, refl)
maybe_fail-Gives h ctx (rule ∷ rules) =
    let scripted = applies-IsScripted h ctx rule in
    elim (Bool-cases (applies h ctx rule)) [
      | inl a ↦ rw a (
          inr (
            rule,
            here (scripted.0 a),
            failure_for rule rule.on,
            refl,
            failure_for-FailsAs rule rule.on,
          ))
      | inr a ↦
          let other : ¬ IsScripted h ctx rule = λ s. absurd (apart (scripted.1 s) a) in
          rw a (elim (maybe_fail-Gives h ctx rules) [
            | inl (quiet, e) ↦ inl ((other, quiet), e)
            | inr (first, f, e, q, like) ↦ inr (first, after other f, e, q, like)
          ])
    ]

-- The provider without scripted failures, called without a context.
abbrev pub unscripted : MockProviderOptions → MockProviderOptions
unscripted options = record options { failures = none }

-- Each call of the mock provider adds to the audit one row with its workflow, step, request hash
-- and attempt. Where no scripted rule is for the call (its attempt is above the rule's number, or
-- the rule names another step or request hash), the call answers as the provider without scripted
-- failures does to the same request without a context; else it fails as the first such rule says,
-- with the rule's status, in an error that is retryable unless the rule says 400. A call without a
-- context counts as the first attempt of no step.
pub complete-scripted :
    (hash : String → String) (options : MockProviderOptions) (request : LlmRequest)
    (ctx : Option LlmCallContext) (audit : List ProviderCallRecord)
    → let h = hash_llm_request hash request in
      let r = complete hash options request ctx audit in
      (r.0 ≡ audit ++ witnessed h ctx ∷ [])
      × Gives h ctx
          (get_or [] options.failures)
          (complete hash (unscripted options) request none []).1
          r.1
unfolding complete maybe_fail
complete-scripted hash options request ctx audit =
    let h = hash_llm_request hash request in
    let response = mock_response hash options request in
    (
      ap (λ row. audit ++ row ∷ []) (audit_row-witnessed h ctx),
      elim (maybe_fail-Gives h ctx (get_or [] options.failures)) [
        | inl (quiet, e) ↦ inl (quiet, ap (λ o. result_of o response) e)
        | inr (rule, first, e, q, like) ↦
            inr (rule, first, e, ap (λ o. result_of o response) q, like)
      ],
    )
