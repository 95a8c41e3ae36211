-- ===== src/Providers.antt =====
-- packages/llm/src: the providers of LLM completions, their errors and prices.
pub mod Errors
pub mod Prices
pub mod Mock
pub mod Anthropic
pub mod Selected
pub mod Classified
pub mod NoFallback
pub mod Recovers
pub mod Audit
pub mod Counted
