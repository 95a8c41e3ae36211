-- ===== src/Worker/ToolRegistry.antt =====
-- packages/worker-sdk/src/tools.ts: the registered tools. `compile` is the JSON Schema compiler of the
-- Ajv library: it may throw, and a compiled schema gives the text of its errors, if any.
use Prim.Native.String.{◌++◌ as ◌+s+◌}
use karya_kram.Base.{String, Option, none, some, List, [], map, text_eq}
use karya_kram.Base.Dict.{Dict, get, put}
use karya_kram.Base.Throws.{Throws, threw, returned}
use karya_kram.Json.{Value, Fields}
use karya_kram.Llm.{LlmToolDefinition}
use karya_kram.Worker.ToolHandler.{Tool, ToolWorker}

abbrev pub Validator : Type 0
Validator = Value → Option String

abbrev pub Compiler : Type 0
Compiler = Fields → Throws Validator

pub record ToolDefinition : Type 0 where
  pub name : String
  pub description : Option String
  pub args_schema : Fields
  pub handler : Tool

pub record ToolRegistry : Type 0 where
  pub tools : Dict String ToolDefinition
  pub validators : Dict String Validator

abbrev pub new_registry : ToolRegistry
new_registry = record { tools = []; validators = [] }

abbrev pub add_tool : ToolDefinition → ToolRegistry → Throws Validator → Throws ToolRegistry
add_tool tool r (threw message) = threw message
add_tool tool r (returned validator) = returned (record {
  tools = put tool.name tool r.tools;
  validators = put tool.name validator r.validators;
})

abbrev pub register_new :
    Compiler → ToolDefinition → ToolRegistry → Option ToolDefinition → Throws ToolRegistry
register_new compile tool r (some old) =
    threw ("tool \"" +s+ tool.name +s+ "\" is already registered")
register_new compile tool r none = add_tool tool r (compile tool.args_schema)

unfoldable pub register : Compiler → ToolDefinition → ToolRegistry → Throws ToolRegistry
register compile tool r = register_new compile tool r (get tool.name r.tools)

abbrev pub get_tool : String → ToolRegistry → Option ToolDefinition
get_tool name r = get name r.tools

pub data ToolValidation : Type 0 where
  ok : ToolValidation
  unknown_tool : String → ToolValidation
  invalid_args : String → ToolValidation

abbrev pub check_args : String → Option String → ToolValidation
check_args name none = ok
check_args name (some errors) =
    invalid_args ("invalid arguments for tool \"" +s+ name +s+ "\": " +s+ errors)

abbrev pub run_validator : String → Value → Option Validator → ToolValidation
run_validator name args none = unknown_tool ("tool \"" +s+ name +s+ "\" is not registered")
run_validator name args (some validator) = check_args name (validator args)

unfoldable pub validate : ToolRegistry → String → Value → ToolValidation
validate r name args = run_validator name args (get name r.validators)

-- An empty description is left out.
abbrev offered_description : Option String → Option String
offered_description (some String.[]) = none
offered_description d = d

unfoldable pub to_llm_tools : ToolRegistry → List LlmToolDefinition
to_llm_tools r = map offered r.tools
  where
    offered : String × ToolDefinition → LlmToolDefinition
    offered (name, t) = record {
      name = t.name;
      description = offered_description t.description;
      input_schema = t.args_schema;
    }

-- What the tool handler asks of its registry.
abbrev pub refusal_of : ToolValidation → Option (String × String)
refusal_of ok = none
refusal_of (unknown_tool message) = some (message, "unknown_tool")
refusal_of (invalid_args message) = some (message, "invalid_args")

abbrev pub handler_of : Option ToolDefinition → Option Tool
handler_of none = none
handler_of (some t) = some t.handler

unfoldable pub tool_worker : ToolRegistry → (String → String) → ToolWorker
unfolding validate
tool_worker r hash = record {
  validate = λ name args. refusal_of (validate r name args);
  tool = λ name. handler_of (get_tool name r);
  hash = hash;
}
