-- ===== src/Worker/EnvConfig.antt =====
-- packages/worker-sdk/src/llmConfig.ts, lines 50 to 88: the configuration of LLM and tool steps, read
-- from the environment. `parse_prices` is JSON.parse on the table of prices.
use Prim.Native.String.{◌++◌ as ◌+s+◌}
use karya_kram.Base.{
  ℕ, ◌*◌, String, Bool, true, not, Option, none, some, List, [], ◌∷◌, any, leb, ◌==◌, text_eq,
  if◌then◌else◌,
}
use karya_kram.Base.Words.{trim, to_lower_case, parse_int}
use karya_kram.Base.Throws.{Throws, threw, returned}
use karya_kram.Llm.{get_or}
use karya_kram.Providers.Prices.{PriceTable, load_price_table}
use karya_kram.Providers.Selected.{Env}

abbrev falsy : List String
falsy = "false" ∷ "0" ∷ "no" ∷ "off" ∷ []

unfoldable pub env_bool : Option String → Bool → Bool
unfolding trim to_lower_case
env_bool none fallback = fallback
env_bool (some value) fallback =
    let word = to_lower_case (trim value) in
    if value == "" then fallback else not (any (λ w. w == word) falsy)

abbrev not_positive : String → String → Throws ℕ
not_positive name value = threw (name +s+ " must be a positive integer, got " +s+ value)

abbrev pub positive : String → String → Option ℕ → Throws ℕ
positive name value none = not_positive name value
positive name value (some n) = if leb n 0 then not_positive name value else returned n

unfoldable pub env_positive_int : String → Option String → ℕ → Throws ℕ
unfolding parse_int
env_positive_int name none fallback = returned fallback
env_positive_int name (some value) fallback =
    let parsed = positive name value (parse_int value) in
    if value == "" then returned fallback else parsed

-- The configuration without its redaction hook.
pub record EnvConfig : Type 0 where
  pub store_prompts : Bool
  pub max_stored_bytes : ℕ
  pub max_attempts : ℕ
  pub tool_max_attempts : ℕ
  pub price_table : PriceTable

-- What the caller sets in place of the environment.
pub record Overrides : Type 0 where
  pub store_prompts : Option Bool
  pub max_stored_bytes : Option ℕ
  pub max_attempts : Option ℕ
  pub tool_max_attempts : Option ℕ
  pub price_table : Option PriceTable

abbrev pub overridden : Overrides → EnvConfig → EnvConfig
overridden o c = record {
  store_prompts = get_or c.store_prompts o.store_prompts;
  max_stored_bytes = get_or c.max_stored_bytes o.max_stored_bytes;
  max_attempts = get_or c.max_attempts o.max_attempts;
  tool_max_attempts = get_or c.tool_max_attempts o.tool_max_attempts;
  price_table = get_or c.price_table o.price_table;
}

abbrev pub with_prices : Overrides → Bool → ℕ → ℕ → ℕ → Throws PriceTable → Throws EnvConfig
with_prices o store bytes attempts tool_attempts (threw m) = threw m
with_prices o store bytes attempts tool_attempts (returned table) = returned (
    overridden o (record {
      store_prompts = store;
      max_stored_bytes = bytes;
      max_attempts = attempts;
      tool_max_attempts = tool_attempts;
      price_table = table;
    }))

-- The three numbers are read in this order; the first error is thrown.
abbrev pub after_numbers :
    Overrides → Bool → Throws PriceTable → Throws ℕ → Throws ℕ → Throws ℕ → Throws EnvConfig
after_numbers o store table (threw m) attempts tool_attempts = threw m
after_numbers o store table (returned bytes) (threw m) tool_attempts = threw m
after_numbers o store table (returned bytes) (returned attempts) (threw m) = threw m
after_numbers o store table (returned bytes) (returned attempts) (returned tool_attempts) =
    with_prices o store bytes attempts tool_attempts table

unfoldable pub load_llm_step_config :
    (String → Throws PriceTable) → Env → Overrides → Throws EnvConfig
load_llm_step_config parse_prices env o =
    after_numbers o (env_bool (env "KARYAKRAM_STORE_PROMPTS") true)
      (load_price_table parse_prices (env "KARYAKRAM_LLM_PRICES"))
      (env_positive_int "KARYAKRAM_MAX_STORED_BYTES" (env "KARYAKRAM_MAX_STORED_BYTES")
        (256 * 1024))
      (env_positive_int "KARYAKRAM_LLM_MAX_ATTEMPTS" (env "KARYAKRAM_LLM_MAX_ATTEMPTS") 5)
      (env_positive_int "KARYAKRAM_TOOL_MAX_ATTEMPTS" (env "KARYAKRAM_TOOL_MAX_ATTEMPTS") 3)
