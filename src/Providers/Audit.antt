-- ===== src/Providers/Audit.antt =====
-- packages/db/src/providerAudit.ts: the table `provider_call_audit`, its rows in the order of their ids.
use karya_kram.Base.{ℕ, ◌+◌, String, List, [], ◌∷◌, ◌++◌, select, ◌==◌, text_eq}
use karya_kram.Base.Dict.{Dict, get, put}
use karya_kram.Llm.{get_or}
use karya_kram.Providers.Mock.{ProviderCallRecord}

pub record ProviderCallRow : Type 0 where
  pub call : ProviderCallRecord
  pub called_at : ℕ

unfoldable pub record_provider_call :
    ℕ → ProviderCallRecord → List ProviderCallRow → List ProviderCallRow
record_provider_call now call rows = rows ++ record { call = call; called_at = now } ∷ []

unfoldable pub list_provider_calls : String → List ProviderCallRow → List ProviderCallRow
list_provider_calls wf rows = select (λ r. r.call.workflow_id == wf) rows

-- COUNT(*) … GROUP BY step_id
unfoldable pub count_steps : List ProviderCallRow → Dict String ℕ
unfolding get put
count_steps [] = []
count_steps (r ∷ rows) =
    let rest = count_steps rows in put r.call.step_id (get_or 0 (get r.call.step_id rest) + 1) rest

unfoldable pub count_provider_calls_by_step : String → List ProviderCallRow → Dict String ℕ
unfolding count_steps
count_provider_calls_by_step wf rows = count_steps (select (λ r. r.call.workflow_id == wf) rows)
