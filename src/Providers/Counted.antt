-- ===== src/Providers/Counted.antt =====
-- The audit counts each call of a provider once (providerAudit.ts, mockProvider.ts).
use karya_kram.Base.{
  ℕ, ◌+◌, ◌≡◌, refl, ap, String, Bool, ◌&&◌, List, [], ◌∷◌, ◌++◌, arith, length, select, ◌==◌,
  text_eq, eq_iff, Bool-cases, inl, inr, if◌then◌else◌, length-append, select-append,
}
use karya_kram.Base.Dict.{Dict, get, get-put}
use karya_kram.Llm.{get_or}
use karya_kram.Providers.Mock.{ProviderCallRecord}
use karya_kram.Providers.Audit.{
  ProviderCallRow, record_provider_call, list_provider_calls, count_steps,
  count_provider_calls_by_step,
}

abbrev pub of_step : String → ProviderCallRow → Bool
of_step step r = r.call.step_id == step

-- The count of a step, 0 where the step has none.
abbrev pub calls_of : String → Dict String ℕ → ℕ
calls_of step counts = get_or 0 (get step counts)

count_steps-length :
    (step : String) (rows : List ProviderCallRow)
    → calls_of step (count_steps rows) ≡ length (select (of_step step) rows)
unfolding count_steps
count_steps-length step [] = refl
count_steps-length step (r ∷ rows) =
    let rest = count_steps rows in
    let ih = count_steps-length step rows in
    rw (get-put r.call.step_id step (calls_of r.call.step_id rest + 1) rest)
      (elim (Bool-cases (r.call.step_id == step)) [
        | inl e ↦
            let same : r.call.step_id ≡ step = (eq_iff r.call.step_id step).0 e in
            rw e (omega (arith, ih, ap (λ k. calls_of k rest) same))
        | inr e ↦ rw e ih
      ])

-- The count of a step's provider calls is the number of that step's rows in the workflow's list of
-- calls, and recording a call adds one to the count of its own step and workflow and leaves any
-- other as it was.
pub recorded-counted :
    (wf step : String) (now : ℕ) (call : ProviderCallRecord) (rows : List ProviderCallRow)
    → (calls_of step (count_provider_calls_by_step wf rows)
        ≡ length (select (of_step step) (list_provider_calls wf rows)))
      × (calls_of step (count_provider_calls_by_step wf (record_provider_call now call rows))
          ≡ calls_of step (count_provider_calls_by_step wf rows)
            + (if (call.workflow_id == wf) && (call.step_id == step) then 1 else 0))
unfolding count_provider_calls_by_step list_provider_calls record_provider_call
recorded-counted wf step now call rows =
    let of_wf : ProviderCallRow → Bool = λ r. r.call.workflow_id == wf in
    let added : List ProviderCallRow = record { call = call; called_at = now } ∷ [] in
    (
      count_steps-length step (select of_wf rows),
      rw
          (
            count_steps-length step (select of_wf (rows ++ added)),
            count_steps-length step (select of_wf rows),
            select-append of_wf rows added,
            select-append (of_step step) (select of_wf rows) (select of_wf added),
            length-append (select (of_step step) (select of_wf rows))
                (select (of_step step) (select of_wf added)),
          )
          (ground arith),
    )
