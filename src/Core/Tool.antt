-- ===== src/Core/Tool.antt =====
-- agent_sdk/core/tool.py: `Tool.execute` and `ToolRegistry`. The function of a tool is a parameter:
-- it takes its arguments as JSON text, may use the database, and returns a value, for which a text
-- stands, or None, or raises.
pub mod Schema
use agent_sdk.Prelude.{String, Option, none, some, List}
use agent_sdk.Prelude.Dict
use agent_sdk.Prelude.Dict.{Dict, get, values}
use agent_sdk.Types.{ExecutionPolicy, tool_not_found, tool_execution, Result, ok, err}
use agent_sdk.Db.Backend.{Backend}
use agent_sdk.Db.Exec.{Exec, ◌>>=◌, uuid4}
use agent_sdk.Core.Message.{ToolResult}

pub record Tool (Db : Type 0) : Type 0 where
  pub name : String
  pub description : String
  pub parameters_schema : String
  pub policy : ExecutionPolicy
  pub fn : String → Exec Db (Option String)

abbrev pub ToolRegistry : Type 0 → Type 0
ToolRegistry Db = Dict (Tool Db)

-- `except Exception as exc: raise ToolExecutionError(...)`
abbrev pub wrap : String → Result (Option String) → Result ToolResult
wrap call_id (ok output) = ok (record { tool_call_id = call_id; output = output; error = none })
wrap call_id (err e) = err tool_execution

module _ {Db : Type 0} where
  unfoldable pub register : Tool Db → ToolRegistry Db → ToolRegistry Db
  register t r = Dict.put t.name t r

  unfoldable pub lookup : String → ToolRegistry Db → Result (Tool Db)
  lookup name r = elim (get name r) [ none ↦ err tool_not_found | some t ↦ ok t ]

  unfoldable pub list_tools : ToolRegistry Db → List (Tool Db)
  list_tools r = values r

  unfoldable pub execute : Backend Db → Tool Db → String → Exec Db ToolResult
  execute E t arguments = do
    call_id ← uuid4 E
    λ w. let (r, w') = t.fn arguments w in (wrap call_id r, w')
