-- ===== src/Core/Tool/Schema.antt =====
-- agent_sdk/core/tool.py: `to_schemas`, and the decorator `tool` with the JSON Schema that it makes
-- of a signature. The JSON Schema of a Pydantic model, json.dumps of a schema and str.strip are
-- parameters. A signature is the list that inspect and get_type_hints give.
pub mod Described
pub mod Tests
use agent_sdk.Prelude.{
  String, Bool, true, false, ◌||◌, Option, none, some, List, [], ◌∷◌, ◌++◌, map, str_eq,
  if◌then◌else◌,
}
use agent_sdk.Prelude.Dict
use agent_sdk.Prelude.Dict.{Dict}
use agent_sdk.Types.{ExecutionPolicy}
use agent_sdk.Db.Exec.{Exec}
use agent_sdk.Db.Repositories.SessionRepo.{or_else}
use agent_sdk.Core.Tool.{Tool, ToolRegistry, list_tools}

-- A type annotation: `another` is one that no test of the code names, such as Any, Optional[…] or a
-- bare `list`. A model is a Pydantic class, by its name.
pub data Hint : Type 0 where
  str int float bool dict another : Hint
  -- List[…], with and without an argument.
  list_of : Hint → Hint
  list : Hint
  model : String → Hint

pub data Schema : Type 0 where
  -- {}
  anything : Schema
  -- {"type": t}
  type_named : String → Schema
  -- {"type": "array", "items": items}
  array : Schema → Schema
  -- `model_json_schema()` of a class
  of_model : String → Schema

pub record Parameter : Type 0 where
  pub name : String
  pub hint : Option Hint
  pub has_default : Bool

-- {"type": "object", "properties": …, "required": …}
pub record ObjectSchema : Type 0 where
  pub properties : Dict Schema
  pub required : Option (List String)

pub record Function (Db : Type 0) : Type 0 where
  pub name : String
  pub doc : Option String
  pub parameters : List Parameter
  pub run : String → Exec Db (Option String)

-- An entry of `to_schemas`, whose `type` is "function".
pub record FunctionSchema : Type 0 where
  pub name : String
  pub description : String
  pub parameters : String

unfoldable pub type_to_schema : Hint → Schema
type_to_schema str = type_named "string"
type_to_schema int = type_named "integer"
type_to_schema float = type_named "number"
type_to_schema bool = type_named "boolean"
type_to_schema (list_of item) = array (type_to_schema item)
type_to_schema list = array anything
type_to_schema dict = type_named "object"
type_to_schema another = type_named "string"
type_to_schema (model c) = type_named "string"

-- `hints.get(param_name, Any)`
abbrev pub hint_of : Parameter → Hint
hint_of p = elim p.hint [ none ↦ another | some h ↦ h ]

unfoldable pub property_schema : Hint → Schema
unfolding type_to_schema
property_schema (model c) = of_model c
property_schema h = type_to_schema h

-- `param_name in ("ctx", "context", "self", "cls")`
unfoldable pub injected : String → Bool
injected n = str_eq n "ctx" || str_eq n "context" || str_eq n "self" || str_eq n "cls"

-- The loop over the parameters.
unfoldable pub collect : List Parameter → Dict Schema → List String → Dict Schema × List String
unfolding injected property_schema
collect [] properties required = (properties, required)
collect (p ∷ ps) properties required =
    let added = Dict.put p.name (property_schema (hint_of p)) properties in
    let now_required = if p.has_default then required else required ++ p.name ∷ [] in
    let skipped = collect ps properties required in
    let rest = collect ps added now_required in if injected p.name then skipped else rest

-- `if required: schema["required"] = required`
abbrev pub if_any : List String → Option (List String)
if_any [] = none
if_any (n ∷ ns) = some (n ∷ ns)

unfoldable pub build_schema_from_hints : List Parameter → ObjectSchema
unfolding collect
build_schema_from_hints ps =
    let (properties, required) = collect ps [] [] in
    record { properties = properties; required = if_any required }

module _ {Db : Type 0} (strip : String → String) (dumps : ObjectSchema → String) where
  unfoldable pub tool : (name description : Option String) → ExecutionPolicy → Function Db → Tool Db
  unfolding build_schema_from_hints
  tool name description policy fn = record {
    name = or_else name fn.name;
    description = or_else description (strip (or_else fn.doc ""));
    parameters_schema = dumps (build_schema_from_hints fn.parameters);
    policy = policy;
    fn = fn.run;
  }

-- `t.parameters_schema or {"type": "object", "properties": {}}`
abbrev pub parameters_or_empty : String → String
parameters_or_empty s = if str_eq s "{}" then "{\"type\": \"object\", \"properties\": {}}" else s

module _ {Db : Type 0} where
  abbrev pub function_schema : Tool Db → FunctionSchema
  function_schema t = record {
    name = t.name;
    description = t.description;
    parameters = parameters_or_empty t.parameters_schema;
  }

  unfoldable pub to_schemas : ToolRegistry Db → List FunctionSchema
  unfolding list_tools
  to_schemas r = map function_schema (list_tools r)
