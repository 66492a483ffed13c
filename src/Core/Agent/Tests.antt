-- ===== src/Core/Agent/Tests.antt =====
-- A run on the database in memory: the model first calls a tool that is registered and one that is
-- not, and then answers.
use agent_sdk.Core.Agent
use agent_sdk.Core.Agent.Loop
use agent_sdk.Core.Session
use agent_sdk.Core.Tool
use agent_sdk.Db.Exec
use agent_sdk.Db.Reference
use agent_sdk.Db.Repositories.SessionRepo
use agent_sdk.Db.Repositories.StepRepo
use agent_sdk.Db.Sql
use agent_sdk.Isolation.Filter
use agent_sdk.Isolation.Filter.Build
use agent_sdk.Isolation.Scope
use agent_sdk.Persistence.History
use agent_sdk.Prelude
use agent_sdk.Prelude.Dict
use agent_sdk.Prelude.{
  map, ℕ, zero, suc, String, ◌≡◌, refl, Bool, true, false, Option, none, some, List, [], ◌∷◌, ◌≤◌,
  ◌+◌, length,
}
use agent_sdk.Types.{MessageRole, RunStatus, ExecutionPolicy, Result, ok, err}
use agent_sdk.Db.Exec.{World, pure}
use agent_sdk.Db.Reference.{Tables, no_rows, reference}
use agent_sdk.Persistence.Plain.{plain}
use agent_sdk.Core.Message.{ToolCall, ToolResult, Message, LlmResponse}
use agent_sdk.Core.Tool.{Tool}
use agent_sdk.Core.Agent.{run}
use agent_sdk.Core.Agent.Loop.Answers.{execute_calls-ids}
use agent_sdk.Core.Agent.Loop.{execute_calls, Agent, AgentResult, or_zero}
use agent_sdk.Core.Agent.Loop.Bounds.{count_from, numbers, FinalAnswer}
use agent_sdk.Core.Agent.Runs.{IsTraced, run-IsTraced, run-bounds, run-completed}

abbrev pub message : MessageRole → String → Option (List ToolCall) → Message
message role text calls = record {
  role = role;
  content = some text;
  tool_calls = calls;
  tool_call_id = none;
  name = none;
  timestamp = "2026-01-01T00:00:00+00:00";
  metadata = "{}";
}

abbrev pub question : List Message
question = message MessageRole.user "What is the weather?" none ∷ []

abbrev pub calls : List ToolCall
calls =
    record { id = "c1"; tool_name = "weather"; arguments = "{}" }
    ∷ record { id = "c2"; tool_name = "news"; arguments = "{}" }
    ∷ []

abbrev pub weather : Tool Tables
weather = record {
  name = "weather";
  description = "";
  parameters_schema = "{}";
  policy = ExecutionPolicy.auto;
  fn = λ arguments. pure (some "sunny");
}

abbrev pub chat : ℕ → List Message → Result LlmResponse
chat (suc zero) sent =
    ok (record { message = message MessageRole.assistant "" (some calls); tool_calls = calls })
chat _ sent =
    ok (record { message = message MessageRole.assistant "It is sunny." none; tool_calls = [] })

abbrev pub demo : Agent Tables
demo = record {
  backend = reference;
  json = plain;
  name = "demo";
  instructions = λ s. "You are a helpful AI agent.";
  registry = ("weather", weather) ∷ [];
  max_steps = 5;
  chat = chat;
  describe = λ e. "error";
  dumps = λ v. some v;
  dump_message = λ m. "{}";
  dump_calls = λ c. "[]";
  dump_results = λ r. "[]";
}

abbrev pub start : World Tables
start = record { db = no_rows; scope = none; reads = 0 }

abbrev nothing : AgentResult
nothing = record {
  session_id = "";
  user_id = "";
  messages = [];
  steps = [];
  final_output = "";
  status = RunStatus.failed;
  resumed_from_step = none;
}

abbrev or_nothing : Result AgentResult → AgentResult
or_nothing (ok r) = r
or_nothing (err e) = nothing

unfoldable result : AgentResult
result = or_nothing (run demo "alice" question none none false start).0

-- The run returns, with two steps, and with the messages of the model and of the tools between.
ran :
    ((run demo "alice" question none none false start).0 ≡ ok result)
    × (result.status ≡ RunStatus.completed)
    × (result.final_output ≡ "It is sunny.")
    × (length result.steps ≡ 2)
    × (length result.messages ≡ 4)
unfolding result run reference plain Exec.◌>>=◌ SessionRepo.create SessionRepo.new_id Exec.uuid4
    Exec.now Exec.execute_built Filter.insert Scope.get_user_scope Exec.execute Build.insert
    Dict.put SessionRepo.get_by_id Exec.fetch_one_built Filter.select Exec.fetch_one Build.select
    Dict.update Session.add_message Session.from_row Session.lift Session.parse_status
    Session.text_at pure Reference.run_execute Reference.run_fetch Reference.sort
    SessionRepo.or_else SessionRepo.update_status StepRepo.get_latest_by_session Sql.bind Sql.holds
    Sql.keep Sql.limit Sql.pair_up Sql.project Sql.satisfies Sql.sql_eq Sql.sql_lt Sql.written
    Build.conditions Build.update Filter.update Scope.clear_user_scope Scope.set_user_scope
    Scope.user_scope History.append History.count History.encode_calls History.decode_calls
    History.parse_role History.row_to_message History.optional History.to_messages
    History.get_messages History.message_row History.role_value Agent.run_in_scope Agent.create
    Agent.open_session Agent.add_all Dict.get Prelude.str_eq Session.get_history Tool.execute
    Tool.lookup Loop.execute_call StepRepo.create StepRepo.get_by_id StepRepo.update_status
    StepRepo.status_fields Loop.execute_calls Loop.add_results Loop.steps_loop Exec.fetch_all
ran = (refl, refl, refl, refl, refl)

run-IsTraced_example : IsTraced demo none result
run-IsTraced_example = run-IsTraced demo "alice" question none none false start result ran.0

run-bounds_example :
    (length result.steps ≤ 5)
    × (numbers result.steps
        ≡ count_from (or_zero result.resumed_from_step + 1) (length result.steps))
run-bounds_example = run-bounds demo "alice" question none none false start result ran.0

run-completed_example : FinalAnswer demo result.resumed_from_step result.final_output
run-completed_example = run-completed demo "alice" question none none false start result ran.0 ran.1

execute_calls-ids_example :
    (rs : List ToolResult) × ((execute_calls demo calls start).0 ≡ ok rs)
    × (map (λ (r : ToolResult). r.tool_call_id) rs ≡ map (λ (c : ToolCall). c.id) calls)
execute_calls-ids_example = execute_calls-ids demo calls start
