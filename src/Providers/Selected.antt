-- ===== src/Providers/Selected.antt =====
-- packages/llm/src/config.ts: the provider that the environment selects. Variables of the environment
-- are a function of their names; `parse_failures` and `number` are JSON.parse and Number(…).
use Prim.Native.String.{◌++◌ as ◌+s+◌}
use karya_kram.Base.{ℕ, String, Option, none, some, List, ◌==◌, text_eq, if◌then◌else◌}
use karya_kram.Base.Words.{trim, to_lower_case}
use karya_kram.Base.Throws.{Throws, threw, returned}
use karya_kram.Llm.{get_or}
use karya_kram.Providers.Mock.{MockFailureRule, MockProviderOptions}
use karya_kram.Providers.Anthropic.{AnthropicOptions}

abbrev pub Env : Type 0
Env = String → Option String

pub data Provider : Type 0 where
  mock : MockProviderOptions → Provider
  anthropic : String → AnthropicOptions → Provider

abbrev pub mock_options : Option (List MockFailureRule) → ℕ → MockProviderOptions
mock_options failures latency = record {
  model = none;
  latency_ms = λ request. latency;
  failures = failures;
}

abbrev pub latency_of : (String → ℕ) → Option String → ℕ
latency_of number none = 0
latency_of number (some text) = number text

abbrev pub with_failures : ℕ → Throws (List MockFailureRule) → Throws Provider
with_failures latency (threw message) = threw message
with_failures latency (returned failures) = returned (mock (mock_options (some failures) latency))

-- An empty or absent variable gives no failures.
abbrev pub mock_provider :
    (String → Throws (List MockFailureRule)) → ℕ → Option String → Throws Provider
mock_provider parse_failures latency none = returned (mock (mock_options none latency))
mock_provider parse_failures latency (some text) =
    let parsed = with_failures latency (parse_failures text) in
    if text == "" then returned (mock (mock_options none latency)) else parsed

abbrev no_key : String
no_key =
    "LLM_PROVIDER=anthropic but ANTHROPIC_API_KEY is not set. Set the key, or set LLM_PROVIDER=mock. KaryaKram will not silently fall back to the mock provider."

abbrev pub anthropic_provider : String → Option String → Throws Provider
anthropic_provider model none = threw no_key
anthropic_provider model (some api_key) =
    if api_key == ""
    then threw no_key
    else returned (anthropic api_key (record { default_model = model; default_max_tokens = none }))

unfoldable pub choice_of : Env → String
unfolding trim to_lower_case
choice_of env = to_lower_case (trim (get_or "mock" (env "LLM_PROVIDER")))

unfoldable pub create_provider_from_env :
    (String → Throws (List MockFailureRule)) → (String → ℕ) → Env → Throws Provider
create_provider_from_env parse_failures number env =
    let choice = choice_of env in
    if choice == "mock"
    then mock_provider parse_failures (latency_of number (env "MOCK_LLM_LATENCY_MS"))
        (env "MOCK_LLM_FAILURES")
    else if choice == "anthropic"
    then anthropic_provider (get_or "claude-opus-5-5" (env "ANTHROPIC_MODEL"))
        (env "ANTHROPIC_API_KEY")
    else threw ("Unknown LLM_PROVIDER \"" +s+ choice +s+ "\" (expected \"mock\" or \"anthropic\").")
