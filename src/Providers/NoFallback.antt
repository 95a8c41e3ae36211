-- ===== src/Providers/NoFallback.antt =====
-- The provider is the one that the environment names (config.ts).
use karya_kram.Base.{
  ℕ, ◌≡◌, ◌≢◌, refl, String, Option, none, some, List, ◌==◌, text_eq, eq_iff, Bool-cases, inl, inr,
  arith, subst,
}
use karya_kram.Base.Throws.{Throws, threw, returned}
use karya_kram.Llm.{get_or}
use karya_kram.Providers.Mock.{MockFailureRule}
use karya_kram.Providers.Anthropic.{AnthropicOptions}
use karya_kram.Providers.Selected.{
  Env, Provider, mock, anthropic, mock_provider, anthropic_provider, with_failures, choice_of,
  create_provider_from_env, latency_of,
}

-- A mock only where it is asked for, and Anthropic only with the key that is set.
abbrev Named : Env → Throws Provider → Type 0
Named env (threw message) = Unit
Named env (returned (mock options)) = choice_of env ≡ "mock"
Named env (returned (anthropic key options)) =
    (choice_of env ≡ "anthropic") × (env "ANTHROPIC_API_KEY" ≡ some key) × (key ≢ "")

with_failures-Named :
    (env : Env) (latency : ℕ) (parsed : Throws (List MockFailureRule))
    → choice_of env ≡ "mock"
    → Named env (with_failures latency parsed)
with_failures-Named env latency (threw m) e = tt
with_failures-Named env latency (returned rules) e = e

mock_provider-Named :
    (env : Env) (parse : String → Throws (List MockFailureRule)) (latency : ℕ) (o : Option String)
    → choice_of env ≡ "mock"
    → Named env (mock_provider parse latency o)
mock_provider-Named env parse latency none e = e
mock_provider-Named env parse latency (some text) e = elim (Bool-cases (text == "")) [
  | inl b ↦ rw (b, Named) e
  | inr b ↦ rw (b, Named) (with_failures-Named env latency (parse text) e)
]

anthropic_provider-Named :
    (env : Env) (model : String) (o : Option String)
    → env "ANTHROPIC_API_KEY" ≡ o
    → choice_of env ≡ "anthropic"
    → Named env (anthropic_provider model o)
anthropic_provider-Named env model none at e = tt
anthropic_provider-Named env model (some key) at e = elim (Bool-cases (key == "")) [
  | inl b ↦ rw (b, Named) tt
  | inr b ↦ rw (b, Named) (e, at, (λ empty. absurd (ground (arith, eq_iff key "", empty))))
]

created-Named :
    (env : Env) (parse : String → Throws (List MockFailureRule)) (number : String → ℕ)
    → Named env (create_provider_from_env parse number env)
unfolding create_provider_from_env
created-Named env parse number = elim (Bool-cases (choice_of env == "mock")) [
  | inl m ↦
      rw (m, Named)
        (mock_provider-Named env parse (latency_of number (env "MOCK_LLM_LATENCY_MS"))
          (env "MOCK_LLM_FAILURES") ((eq_iff (choice_of env) "mock").0 m))
  | inr m ↦
      rw (m, Named)
        (elim (Bool-cases (choice_of env == "anthropic")) [
          | inl a ↦
              rw (a, Named)
                (anthropic_provider-Named env (get_or "claude-opus-5-5" (env "ANTHROPIC_MODEL"))
                  (env "ANTHROPIC_API_KEY") refl ((eq_iff (choice_of env) "anthropic").0 a))
          | inr a ↦ rw (a, Named) tt
        ])
]

-- Where LLM_PROVIDER does not read mock, a provider that is created is the Anthropic one,
-- LLM_PROVIDER reads anthropic, and its key is the value of ANTHROPIC_API_KEY, which is not empty.
pub no_fallback :
    (env : Env) (parse : String → Throws (List MockFailureRule)) (number : String → ℕ)
    (p : Provider)
    → choice_of env ≢ "mock"
    → create_provider_from_env parse number env ≡ returned p
    → (key : String) × (options : AnthropicOptions) × (p ≡ anthropic key options)
      × (choice_of env ≡ "anthropic")
      × (env "ANTHROPIC_API_KEY" ≡ some key)
      × (key ≢ "")
no_fallback env parse number (mock options) other e =
    absurd (other (subst (Named env) e (created-Named env parse number)))
no_fallback env parse number (anthropic key options) other e =
    let named = subst (Named env) e (created-Named env parse number) in
    (key, options, refl, named.0, named.1, named.2)
