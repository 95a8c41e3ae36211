-- ===== src/Scenarios/Samples.antt =====
-- An order, an audit, an environment and a view, on sample values.
use karya_kram.Base.{
  ◌+◌, ◌≡◌, refl, String, true, false, ◌&&◌, none, some, List, [], ◌∷◌, length, select, ◌==◌,
  text_eq, if◌then◌else◌,
}
use karya_kram.Base.Throws.{Throws, threw, returned}
use karya_kram.Json.{Value, str, null, obj, end, field}
use karya_kram.Workflow.Events.{WorkflowEventPayload, tool_completed}
use karya_kram.Examples.Stages.{order_started, durable, fails, direct, order_durable}
use karya_kram.Providers.Mock.{ProviderCallRecord}
use karya_kram.Providers.Audit.{
  ProviderCallRow, record_provider_call, list_provider_calls, count_provider_calls_by_step,
}
use karya_kram.Providers.Counted.{of_step, calls_of, recorded-counted}
use karya_kram.Providers.Prices.{PriceTable, default_price_table, load_price_table}
use karya_kram.Providers.Selected.{Env}
use karya_kram.Worker.EnvConfig.{
  EnvConfig, Overrides, env_bool, env_positive_int, load_llm_step_config,
}
use karya_kram.Worker.Positive.{Usable, loaded-Usable}
use karya_kram.Debugger.View.{is_completion}
use karya_kram.Debugger.Detail.{describe_step_event}
use karya_kram.Debugger.Badges.{has_badge, is_shown, is_step_event, described-badge}

abbrev order : Value
order = obj (field "orderId" (str "o-1") end)

order_durable_example :
    durable order (returned (str "r") ∷ threw "no funds" ∷ []) (order_started order)
    ≡ direct order (returned (str "r") ∷ threw "no funds" ∷ [])
order_durable_example = order_durable order (returned (str "r") ∷ threw "no funds" ∷ [])

charge_fails :
    direct order (returned (str "r") ∷ threw "no funds" ∷ [])
    ≡ (("reserve", order) ∷ ("charge", str "r") ∷ [], fails "no funds")
charge_fails = refl

null_order :
    (direct null (returned null ∷ returned null ∷ returned null ∷ [])).1
    ≡ fails "Cannot read properties of null (reading 'orderId')"
null_order = refl

abbrev called : ProviderCallRecord
called = record { workflow_id = "wf"; step_id = "llm-0"; request_hash = "h"; attempt = 1 }

abbrev audit : List ProviderCallRow
audit = record { call = called; called_at = 5 } ∷ []

recorded-counted_example :
    (calls_of "llm-0" (count_provider_calls_by_step "wf" audit)
      ≡ length (select (of_step "llm-0") (list_provider_calls "wf" audit)))
    × (calls_of "llm-0" (count_provider_calls_by_step "wf" (record_provider_call 6 called audit))
        ≡ calls_of "llm-0" (count_provider_calls_by_step "wf" audit)
          + (if (called.workflow_id == "wf") && (called.step_id == "llm-0") then 1 else 0))
recorded-counted_example = recorded-counted "wf" "llm-0" 6 called audit

abbrev env : Env
env name = if name == "KARYAKRAM_LLM_MAX_ATTEMPTS" then some "7" else none

abbrev no_prices : String → Throws PriceTable
no_prices text = threw "no prices"

abbrev overrides : Overrides
overrides = record {
  store_prompts = none;
  max_stored_bytes = some 100;
  max_attempts = none;
  tool_max_attempts = none;
  price_table = none;
}

abbrev loaded : EnvConfig
loaded = record {
  store_prompts = true;
  max_stored_bytes = 100;
  max_attempts = 7;
  tool_max_attempts = 3;
  price_table = default_price_table;
}

env_loads : load_llm_step_config no_prices env overrides ≡ returned loaded
unfolding load_llm_step_config env_bool env_positive_int load_price_table
env_loads = refl

zero_refused :
    env_positive_int "KARYAKRAM_LLM_MAX_ATTEMPTS" (some "0") 5
    ≡ threw "KARYAKRAM_LLM_MAX_ATTEMPTS must be a positive integer, got 0"
unfolding env_positive_int
zero_refused = refl

off_is_false : env_bool (some " OFF ") true ≡ false
unfolding env_bool
off_is_false = refl

loaded-Usable_example : Usable overrides loaded
loaded-Usable_example = loaded-Usable no_prices env overrides loaded env_loads

abbrev no_json : Value → String
no_json v = "{}"

abbrev charged : WorkflowEventPayload
charged = tool_completed (record {
  step_id = "tool-0";
  scheduled_event_seq = 2;
  tool = "charge";
  result = null;
  latency_ms = 3;
  attempt = 1;
})

described-badge_example :
    (is_shown (describe_step_event no_json charged true) ≡ is_step_event charged)
    × (has_badge "replayed" (describe_step_event no_json charged true)
        ≡ (true && is_completion charged))
described-badge_example = described-badge no_json charged true
