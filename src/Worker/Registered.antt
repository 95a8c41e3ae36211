-- ===== src/Worker/Registered.antt =====
-- Only registered tools run, with the arguments that their schema accepts (tools.ts, toolHandler.ts).
use Prim.Native.String.{◌++◌ as ◌+s+◌}
use karya_kram.Base.{
  String, ◌≡◌, refl, ◌≢◌, Option, none, some, text_eq, ◌==◌, eq_iff, ◌⊎◌, inl, inr, Bool-cases,
  Option-cases, subst, ap,
}
use karya_kram.Base.Dict.{get, put, get-put}
use karya_kram.Base.Throws.{Throws, threw, returned}
use karya_kram.Json.{Value}
use karya_kram.Worker.ToolRegistry.{
  Validator, Compiler, ToolDefinition, ToolRegistry, new_registry, register, register_new, add_tool,
  get_tool, validate, ok, unknown_tool, invalid_args, run_validator, check_args,
}

-- A registry built by successful calls of `register`.
pub data Registered (compile : Compiler) : ToolRegistry → Type 0 where
  nothing : Registered compile new_registry
  registers :
      {r next : ToolRegistry} (tool : ToolDefinition)
      → Registered compile r
      → register compile tool r ≡ returned next
      → Registered compile next

-- A name has a tool of that name and the validator of its schema, or neither.
abbrev Paired : Compiler → String → Option ToolDefinition → Option Validator → Type 0
Paired compile name none none = Unit
Paired compile name (some t) (some v) = (t.name ≡ name) × (compile t.args_schema ≡ returned v)
Paired compile name (some t) none = ⊥
Paired compile name none (some v) = ⊥

abbrev IsPaired : Compiler → ToolRegistry → Type 0
IsPaired compile r =
    (name : String) → Paired compile name (get name r.tools) (get name r.validators)

add_tool-IsPaired :
    (compile : Compiler) (tool : ToolDefinition) (r next : ToolRegistry) (c : Throws Validator)
    → IsPaired compile r
    → compile tool.args_schema ≡ c
    → add_tool tool r c ≡ returned next
    → IsPaired compile next
add_tool-IsPaired compile tool r next (threw m) h made e = absurd cc
add_tool-IsPaired compile tool r next (returned v) h made e =
    let same : record {
      tools = put tool.name tool r.tools;
      validators = put tool.name v r.validators;
    }
        ≡ next =
      cc in
    subst (IsPaired compile) same (λ name.
      rw (get-put tool.name name tool r.tools, get-put tool.name name v r.validators)
        (elim (Bool-cases (tool.name == name)) [
          | inl q ↦ rw q ((eq_iff tool.name name).0 q, made)
          | inr q ↦ rw q (h name)
        ]))

register_new-IsPaired :
    (compile : Compiler) (tool : ToolDefinition) (r next : ToolRegistry) (o : Option ToolDefinition)
    → IsPaired compile r
    → register_new compile tool r o ≡ returned next
    → IsPaired compile next
register_new-IsPaired compile tool r next none h e =
    add_tool-IsPaired compile tool r next (compile tool.args_schema) h refl e
register_new-IsPaired compile tool r next (some old) h e = absurd cc

Registered-IsPaired :
    (compile : Compiler) (r : ToolRegistry) → Registered compile r → IsPaired compile r
unfolding register get
Registered-IsPaired compile _ nothing = λ name. tt
Registered-IsPaired compile next (registers {r = r} tool before e) =
    register_new-IsPaired compile tool r next (get tool.name r.tools)
      (Registered-IsPaired compile r before) e

-- A tool that is offered under the name, and a validator of its schema.
pub record Found (compile : Compiler) (r : ToolRegistry) (name : String) : Type 0 where
  pub tool : ToolDefinition
  pub validator : Validator
  pub registered : get_tool name r ≡ some tool
  pub named : tool.name ≡ name
  pub compiled : compile tool.args_schema ≡ returned validator

message_of : String → String → String
message_of name errors = "invalid arguments for tool \"" +s+ name +s+ "\": " +s+ errors

Paired-cases :
    (compile : Compiler) (r : ToolRegistry) (name : String) (args : Value)
    (t : Option ToolDefinition) (v : Option Validator)
    → get_tool name r ≡ t
    → Paired compile name t v
    → ((t ≡ none) × (m : String) × (run_validator name args v ≡ unknown_tool m))
      ⊎ ((f : Found compile r name) × (((f.validator args ≡ none)
              × (run_validator name args v ≡ ok))
            ⊎ ((f.validator args ≢ none)
                × (m : String) × (run_validator name args v ≡ invalid_args m))))
unfolding message_of
Paired-cases compile r name args none none at pair = inl (refl, _, refl)
Paired-cases compile r name args (some t) none at pair = absurd pair
Paired-cases compile r name args none (some v) at pair = absurd pair
Paired-cases compile r name args (some t) (some v) at pair =
    let f : Found compile r name = record {
      tool = t;
      validator = v;
      registered = at;
      named = pair.0;
      compiled = pair.1;
    } in
    inr (
      f,
      (elim (Option-cases (v args)) [
        | inl e ↦ inl (e, rw e refl)
        | inr (errors, e) ↦ inr ((λ n. absurd cc), message_of name errors, ap (check_args name) e)
      ]),
    )

-- In a registry built by successful registrations, the arguments of a name that has no tool are
-- refused as those of an unknown tool; a name that has one has the tool registered under it, with
-- the validator that its schema compiles to, and the arguments are accepted where that validator
-- has no errors and refused as invalid where it has some.
pub validate-Found :
    (compile : Compiler) (r : ToolRegistry) (name : String) (args : Value)
    → Registered compile r
    → ((get_tool name r ≡ none) × (m : String) × (validate r name args ≡ unknown_tool m))
      ⊎ ((f : Found compile r name) × (((f.validator args ≡ none) × (validate r name args ≡ ok))
            ⊎ ((f.validator args ≢ none) × (m : String) × (validate r name args ≡ invalid_args m))))
unfolding validate
validate-Found compile r name args built =
    Paired-cases compile r name args (get name r.tools) (get name r.validators) refl
      (Registered-IsPaired compile r built name)
