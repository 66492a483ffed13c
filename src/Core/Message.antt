-- ===== src/Core/Message.antt =====
-- agent_sdk/core/message.py and agent_sdk/core/step.py: the values that a run passes on. A
-- `dict[str, Any]` or another JSON value is its JSON text, and a datetime its ISO text.
-- Left out are the idempotency key of a tool result and the token usage of an answer, which
-- `Agent.run` does not read.
use agent_sdk.Prelude.{ℕ, String, Option, none, some, List, []}
use agent_sdk.Types.{MessageRole, StepStatus}

pub record ToolCall : Type 0 where
  pub id : String
  pub tool_name : String
  pub arguments : String

pub record ToolResult : Type 0 where
  pub tool_call_id : String
  pub output : Option String
  pub error : Option String

pub record Message : Type 0 where
  pub role : MessageRole
  pub content : Option String
  pub tool_calls : Option (List ToolCall)
  pub tool_call_id : Option String
  pub name : Option String
  pub timestamp : String
  pub metadata : String

pub record LlmResponse : Type 0 where
  pub message : Message
  pub tool_calls : List ToolCall

pub record Step : Type 0 where
  pub id : String
  pub session_id : String
  pub step_number : ℕ
  pub status : StepStatus
  pub input_messages : List Message
  pub output_message : Option Message
  pub tool_calls : List ToolCall
  pub tool_results : List ToolResult
  pub checkpoint : Option String
  pub idempotency_key : String
  pub started_at : Option String
  pub completed_at : Option String
  pub error : Option String

-- A step as its constructor leaves it.
abbrev pub new_step : String → String → ℕ → String → Step
new_step id session_id step_number key = record {
  id = id;
  session_id = session_id;
  step_number = step_number;
  status = StepStatus.pending;
  input_messages = [];
  output_message = none;
  tool_calls = [];
  tool_results = [];
  checkpoint = none;
  idempotency_key = key;
  started_at = none;
  completed_at = none;
  error = none;
}

-- The time is that of `_utcnow()`.
abbrev pub mark_running : Step → String → Step
mark_running s time = record s { status = StepStatus.running; started_at = some time }

abbrev pub mark_completed : Step → String → Step
mark_completed s time = record s { status = StepStatus.completed; completed_at = some time }

abbrev pub mark_failed : Step → String → String → Step
mark_failed s e time = record s {
  status = StepStatus.failed;
  error = some e;
  completed_at = some time;
}
