-- ===== src/Core/Agent/Stream/Tests.antt =====
-- A stream on the database in memory: the model streams a tool call in fragments, and then answers.
use agent_sdk.Core.Agent
use agent_sdk.Core.Agent.Stream
use agent_sdk.Core.Agent.Stream.Yield
use agent_sdk.Core.Session
use agent_sdk.Core.Tool
use agent_sdk.Db.Exec
use agent_sdk.Db.Reference
use agent_sdk.Db.Repositories.SessionRepo
use agent_sdk.Db.Repositories.StepRepo
use agent_sdk.Db.Sql
use agent_sdk.Isolation.Filter
use agent_sdk.Isolation.Filter.Build
use agent_sdk.Isolation.Scope
use agent_sdk.Persistence.History
use agent_sdk.Prelude
use agent_sdk.Prelude.Dict
use agent_sdk.Prelude.{
  map, ℕ, zero, suc, String, ◌≡◌, refl, Option, none, some, List, [], ◌∷◌, ◌++◌, if◌then◌else◌,
  str_eq,
}
use agent_sdk.Types.{Error, ok}
use agent_sdk.Db.Exec.{pure}
use agent_sdk.Db.Reference.{reference}
use agent_sdk.Persistence.Plain.{plain}
use agent_sdk.Core.Message.{Message}
use agent_sdk.Core.Agent.Tests.{demo, question, start}
use agent_sdk.Core.Agent.Stream.{Loaded, invalid, dict, Collected, stream}
use agent_sdk.Core.Agent.Stream.Yield.{
  StreamEvent, step_start, token, tool_call, tool_result, step_end, done,
}
use agent_sdk.Core.Agent.Stream.Script.{Script, transcript}
use agent_sdk.Core.Agent.Stream.Scripts.{stream-Script}
use agent_sdk.Core.Agent.Stream.Fragments.{later, fragments-lost}

abbrev loads : String → Loaded
unfolding str_eq
loads t = if str_eq t "" then invalid else dict t

-- The chunks of the first round, as `LiteLLMAdapter.chat_stream` passes them on.
abbrev call_events : List StreamEvent
call_events =
    tool_call (record { id = some "c1"; name = some "weather"; arguments = some "" } ∷ [])
    ∷ map (λ t. tool_call (later t ∷ [])) ("{\"city\":" ∷ "\"Bern\"}" ∷ [])

abbrev chat_stream : ℕ → List Message → List StreamEvent × Option Error
chat_stream (suc zero) sent = (call_events, none)
chat_stream _ sent = (token "It is " ∷ token "sunny." ∷ [], none)

abbrev events : List StreamEvent
events = (stream demo chat_stream loads "alice" question none none start).0.0

streamed : (stream demo chat_stream loads "alice" question none none start).0.1 ≡ ok tt
unfolding stream reference plain Exec.◌>>=◌ SessionRepo.create SessionRepo.new_id Exec.uuid4
    Exec.now Exec.execute_built Filter.insert Scope.get_user_scope Exec.execute Build.insert
    Dict.put SessionRepo.get_by_id Exec.fetch_one_built Filter.select Exec.fetch_one Build.select
    Dict.update Session.add_message Session.from_row Session.lift Session.parse_status
    Session.text_at pure Reference.run_execute Reference.run_fetch Reference.sort
    SessionRepo.or_else SessionRepo.update_status StepRepo.get_latest_by_session Sql.bind Sql.holds
    Sql.keep Sql.limit Sql.pair_up Sql.project Sql.satisfies Sql.sql_eq Sql.sql_lt Sql.written
    Build.conditions Build.update Filter.update Scope.clear_user_scope Scope.set_user_scope
    History.append History.count History.encode_calls History.decode_calls History.parse_role
    History.row_to_message History.optional History.to_messages History.get_messages
    History.message_row History.role_value Agent.create Agent.open_session Agent.add_all Dict.get
    Prelude.str_eq Session.get_history Tool.execute Tool.lookup Exec.fetch_all Yield.in_scope
    Yield.emit Yield.lift Yield.pure Yield.◌>>=◌ Yield.onward Yield.raise Stream.relay
    Stream.checked Stream.ended Stream.collect Stream.call_of Stream.calls_of Stream.tried
    Stream.use_tools Stream.finish Stream.go_on Stream.react Stream.listen Stream.steps_loop
    Stream.stream_in_scope
streamed = refl

last_events :
    (e : StreamEvent) × (events
      ≡ step_start 1
        ∷ (call_events
            ++ (tool_result (record { tool_call_id = "c1"; output = some "sunny"; error = none })
                ∷ step_end 1
                ∷ step_start 2
                ∷ token "It is "
                ∷ token "sunny."
                ∷ step_end 2
                ∷ e
                ∷ [])))
unfolding stream reference plain Exec.◌>>=◌ SessionRepo.create SessionRepo.new_id Exec.uuid4
    Exec.now Exec.execute_built Filter.insert Scope.get_user_scope Exec.execute Build.insert
    Dict.put SessionRepo.get_by_id Exec.fetch_one_built Filter.select Exec.fetch_one Build.select
    Dict.update Session.add_message Session.from_row Session.lift Session.parse_status
    Session.text_at pure Reference.run_execute Reference.run_fetch Reference.sort
    SessionRepo.or_else SessionRepo.update_status StepRepo.get_latest_by_session Sql.bind Sql.holds
    Sql.keep Sql.limit Sql.pair_up Sql.project Sql.satisfies Sql.sql_eq Sql.sql_lt Sql.written
    Build.conditions Build.update Filter.update Scope.clear_user_scope Scope.set_user_scope
    History.append History.count History.encode_calls History.decode_calls History.parse_role
    History.row_to_message History.optional History.to_messages History.get_messages
    History.message_row History.role_value Agent.create Agent.open_session Agent.add_all Dict.get
    Prelude.str_eq Session.get_history Tool.execute Tool.lookup Exec.fetch_all Yield.in_scope
    Yield.emit Yield.lift Yield.pure Yield.◌>>=◌ Yield.onward Yield.raise Stream.relay
    Stream.checked Stream.ended Stream.collect Stream.call_of Stream.calls_of Stream.tried
    Stream.use_tools Stream.finish Stream.go_on Stream.react Stream.listen Stream.steps_loop
    Stream.stream_in_scope
last_events = (done (some "It is sunny.") none, refl)

stream-Script_example : Script chat_stream loads 1 5 events
stream-Script_example =
    stream-Script demo chat_stream loads "alice" question none none start streamed

fragments-lost_example :
    transcript loads call_events (record { content = ""; calls = [] })
    ≡ ok (record {
      content = "";
      calls = record { id = "c1"; tool_name = "weather"; arguments = "{}" } ∷ [];
    })
unfolding str_eq
fragments-lost_example =
    fragments-lost loads "c1" "weather" "" ("{\"city\":" ∷ "\"Bern\"}" ∷ [])
      (record { content = ""; calls = [] }) refl refl
