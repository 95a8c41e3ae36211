-- ===== src/Worker/Positive.antt =====
-- The numbers of a configuration read from the environment (llmConfig.ts).
use karya_kram.Base.{
  ℕ, ◌*◌, ◌<◌, ◌≡◌, refl, String, Bool, true, Option, none, some, arith, leb, ◌==◌, text_eq,
  Bool-cases, inl, inr, subst,
}
use karya_kram.Base.Words.{parse_int}
use karya_kram.Base.Throws.{Throws, threw, returned}
use karya_kram.Llm.{get_or}
use karya_kram.Providers.Prices.{PriceTable, load_price_table}
use karya_kram.Providers.Selected.{Env}
use karya_kram.Worker.EnvConfig.{
  EnvConfig, Overrides, env_bool, env_positive_int, positive, after_numbers, load_llm_step_config,
}

abbrev IsPositive : Throws ℕ → Type 0
IsPositive (threw m) = Unit
IsPositive (returned n) = 0 < n

positive-IsPositive : (name value : String) (o : Option ℕ) → IsPositive (positive name value o)
positive-IsPositive name value none = tt
positive-IsPositive name value (some n) = elim (Bool-cases (leb n 0)) [
  | inl e ↦ rw (e, IsPositive) tt
  | inr e ↦ rw (e, IsPositive) (ground arith)
]

env_positive_int-IsPositive :
    (name : String) (o : Option String) (fallback : ℕ)
    → 0 < fallback
    → IsPositive (env_positive_int name o fallback)
unfolding env_positive_int
env_positive_int-IsPositive name none fallback h = h
env_positive_int-IsPositive name (some value) fallback h = elim (Bool-cases (value == "")) [
  | inl e ↦ rw (e, IsPositive) h
  | inr e ↦ rw (e, IsPositive) (positive-IsPositive name value (parse_int value))
]

-- A number that the caller sets is the caller's; any other is positive.
abbrev pub SetOrPositive : Option ℕ → ℕ → Type 0
SetOrPositive none n = 0 < n
SetOrPositive (some m) n = n ≡ m

set_or-SetOrPositive : (o : Option ℕ) (n : ℕ) → 0 < n → SetOrPositive o (get_or n o)
set_or-SetOrPositive none n h = h
set_or-SetOrPositive (some m) n h = refl

abbrev pub Usable : Overrides → EnvConfig → Type 0
Usable o c =
    SetOrPositive o.max_stored_bytes c.max_stored_bytes
    × SetOrPositive o.max_attempts c.max_attempts
    × SetOrPositive o.tool_max_attempts c.tool_max_attempts

abbrev Loads : Overrides → Throws EnvConfig → Type 0
Loads o (threw m) = Unit
Loads o (returned c) = Usable o c

after_numbers-Loads :
    (o : Overrides) (store : Bool) (table : Throws PriceTable) (b a t : Throws ℕ)
    → IsPositive b
    → IsPositive a
    → IsPositive t
    → Loads o (after_numbers o store table b a t)
after_numbers-Loads o store table (threw m) a t hb ha ht = tt
after_numbers-Loads o store table (returned b) (threw m) t hb ha ht = tt
after_numbers-Loads o store table (returned b) (returned a) (threw m) hb ha ht = tt
after_numbers-Loads o store (threw m) (returned b) (returned a) (returned t) hb ha ht = tt
after_numbers-Loads o store (returned table) (returned b) (returned a) (returned t) hb ha ht = (
  set_or-SetOrPositive o.max_stored_bytes b hb,
  set_or-SetOrPositive o.max_attempts a ha,
  set_or-SetOrPositive o.tool_max_attempts t ht,
)

-- Where the configuration of LLM and tool steps is loaded from the environment without an error,
-- the size cap and the two numbers of attempts are each the caller's where the caller sets it, and
-- positive where not.
pub loaded-Usable :
    (parse : String → Throws PriceTable) (env : Env) (o : Overrides) (c : EnvConfig)
    → load_llm_step_config parse env o ≡ returned c
    → Usable o c
unfolding load_llm_step_config
loaded-Usable parse env o c e = subst (Loads o) e (
    after_numbers-Loads o (env_bool (env "KARYAKRAM_STORE_PROMPTS") true)
      (load_price_table parse (env "KARYAKRAM_LLM_PRICES"))
      (env_positive_int "KARYAKRAM_MAX_STORED_BYTES" (env "KARYAKRAM_MAX_STORED_BYTES")
        (256 * 1024))
      (env_positive_int "KARYAKRAM_LLM_MAX_ATTEMPTS" (env "KARYAKRAM_LLM_MAX_ATTEMPTS") 5)
      (env_positive_int "KARYAKRAM_TOOL_MAX_ATTEMPTS" (env "KARYAKRAM_TOOL_MAX_ATTEMPTS") 3)
      (env_positive_int-IsPositive "KARYAKRAM_MAX_STORED_BYTES" (env "KARYAKRAM_MAX_STORED_BYTES")
        (256 * 1024) (omega arith))
      (env_positive_int-IsPositive "KARYAKRAM_LLM_MAX_ATTEMPTS" (env "KARYAKRAM_LLM_MAX_ATTEMPTS") 5
        (omega arith))
      (env_positive_int-IsPositive "KARYAKRAM_TOOL_MAX_ATTEMPTS" (env "KARYAKRAM_TOOL_MAX_ATTEMPTS")
        3 (omega arith)))
