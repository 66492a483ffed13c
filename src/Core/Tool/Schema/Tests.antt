-- ===== src/Core/Tool/Schema/Tests.antt =====
-- A tool that takes a context, a list of models and a limit with a default.
use agent_sdk.Prelude.{
  String, ◌≡◌, refl, Bool, true, false, Option, none, some, List, [], ◌∷◌, str_eq,
}
use agent_sdk.Db.Sql.{any}
use agent_sdk.Core.Tool.Schema.{
  int, list_of, model, type_named, array, Parameter, build_schema_from_hints,
}
use agent_sdk.Core.Tool.Schema.Described.{
  has, is_given, is_needed, is_required, build_schema-Describes,
}

abbrev search : List Parameter
search =
    record { name = "ctx"; hint = none; has_default = false }
    ∷ record { name = "filters"; hint = some (list_of (model "Filter")); has_default = false }
    ∷ record { name = "limit"; hint = some int; has_default = true }
    ∷ []

-- A model inside a list is described as a text.
models_in_list : build_schema_from_hints search ≡ record {
  properties = ("filters", array (type_named "string")) ∷ ("limit", type_named "integer") ∷ [];
  required = some ("filters" ∷ []);
}
unfolding build_schema_from_hints str_eq agent_sdk.Prelude.Dict.put
models_in_list = refl

build_schema-Describes_example :
    (has "ctx" (build_schema_from_hints search).properties ≡ any (is_given "ctx") search)
    × (is_required "ctx" (build_schema_from_hints search) ≡ any (is_needed "ctx") search)
build_schema-Describes_example = build_schema-Describes "ctx" search
