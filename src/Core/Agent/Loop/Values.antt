-- ===== src/Core/Agent/Loop/Values.antt =====
-- agent_sdk/core/agent.py: what `Agent.run` is given and returns, and the values of its rounds.
use agent_sdk.Prelude.{ℕ, ◌+◌, String, Option, none, some, List}
use Prim.Native.String
use agent_sdk.Types.{MessageRole, RunStatus, Error, other, Result, ok, err}
use agent_sdk.Db.Backend.{Backend}
use agent_sdk.Persistence.History.{Json}
use agent_sdk.Core.Message.{
  ToolCall, ToolResult, Message, LlmResponse, Step, new_step, mark_running,
}
use agent_sdk.Core.Session.{Session}
use agent_sdk.Core.Tool.{ToolRegistry}

pub record AgentResult : Type 0 where
  pub session_id : String
  pub user_id : String
  pub messages : List Message
  pub steps : List Step
  pub final_output : String
  pub status : RunStatus
  pub resumed_from_step : Option ℕ

-- An agent with what it is given: `chat` is the model's answer at its n-th call of a run, and
-- `describe` the text of an exception. `dumps` is json.dumps of what a tool returned: `none` is
-- its TypeError.
pub record Agent (Db : Type 0) : Type 0 where
  pub backend : Backend Db
  pub json : Json
  pub name : String
  pub instructions : Session → String
  pub registry : ToolRegistry Db
  pub max_steps : ℕ
  pub chat : ℕ → List Message → Result LlmResponse
  pub describe : Error → String
  pub dumps : String → Option String
  pub dump_message : Message → String
  pub dump_calls : List ToolCall → String
  pub dump_results : List ToolResult → String

abbrev pub or_zero : Option ℕ → ℕ
or_zero none = 0
or_zero (some n) = n

-- `content or ""`
abbrev pub or_empty : Option String → String
or_empty none = ""
or_empty (some s) = s

-- `json.dumps(tr.output) if tr.output is not None else tr.error`
abbrev pub shown : (dumps : String → Option String) → ToolResult → Result (Option String)
shown dumps r = content r.output
  where
    dumped : Option String → Result (Option String)
    dumped none = err (other "TypeError")
    dumped (some text) = ok (some text)

    content : Option String → Result (Option String)
    content none = ok r.error
    content (some o) = dumped (dumps o)

abbrev pub tool_message : Option String → ToolResult → String → Message
tool_message content r time = record {
  role = MessageRole.tool;
  content = content;
  tool_calls = none;
  tool_call_id = some r.tool_call_id;
  name = none;
  timestamp = time;
  metadata = "{}";
}

abbrev pub system_message : String → String → Message
system_message text time = record {
  role = MessageRole.system;
  content = some text;
  tool_calls = none;
  tool_call_id = none;
  name = none;
  timestamp = time;
  metadata = "{}";
}

abbrev pub not_found : ToolCall → ToolResult
not_found tc = record {
  tool_call_id = tc.id;
  output = none;
  error = some (String.◌++◌ "Tool '" (String.◌++◌ tc.tool_name "' not found."));
}

-- The step record of a round, running, with its id and key and with what is sent to the model.
abbrev pub begin_step : Session → Option ℕ → ℕ → String × String → String → List Message → Step
begin_step s resumed step_num keys started sent =
    record (mark_running (new_step keys.0 s.id (or_zero resumed + step_num) keys.1) started) {
      input_messages = sent;
    }
