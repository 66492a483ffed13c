-- ===== src/Core/Agent/Loop.antt =====
-- The step loop of `Agent.run` in agent_sdk/core/agent.py.
mod Values
pub mod Answers
pub mod Traces
pub mod Bounds
pub mod Returns
use agent_sdk.Prelude.{
  ℕ, zero, suc, ◌+◌, String, Option, none, some, List, [], ◌∷◌, ◌++◌, if◌then◌else◌,
}
use Prim.Native.String
use agent_sdk.Types.{MessageRole, RunStatus, SessionStatus, Error, Result, ok, err, other}
use agent_sdk.Db.Sql.{Row}
use agent_sdk.Db.Backend.{Backend}
use agent_sdk.Db.Exec.{World, Exec, pure, raise, ◌>>=◌, ◌>>◌, uuid4, now}
use agent_sdk.Db.Repositories.SessionRepo
use agent_sdk.Db.Repositories.StepRepo
use agent_sdk.Persistence.History.{Json}
use agent_sdk.Core.Message.{
  ToolCall, ToolResult, Message, LlmResponse, Step, new_step, mark_running, mark_completed,
  mark_failed,
}
use agent_sdk.Core.Session
use agent_sdk.Core.Session.{Session}
use agent_sdk.Core.Tool
use agent_sdk.Core.Tool.{Tool, ToolRegistry}
pub use Values.*

module _ {Db : Type 0} (A : Agent Db) where
  -- What one `tc` appends to `tool_results`, from the outcome of `tool_obj.execute`.
  abbrev pub outcome : ToolCall → Result ToolResult → ToolResult
  outcome tc (ok r) = record r { tool_call_id = tc.id }
  outcome tc (err e) = record { tool_call_id = tc.id; output = none; error = some (A.describe e) }

  executed : ToolCall → Result (Tool Db) → Exec Db ToolResult
  executed tc (err e) w = (ok (not_found tc), w)
  executed tc (ok t) w =
      let (r, w') = Tool.execute A.backend t tc.arguments w in (ok (outcome tc r), w')

  -- The `try` blocks around the registry and around the tool.
  unfoldable pub execute_call : ToolCall → Exec Db ToolResult
  unfolding executed
  execute_call tc = executed tc (Tool.lookup tc.tool_name A.registry)

  unfoldable pub execute_calls : List ToolCall → Exec Db (List ToolResult)
  execute_calls [] = pure []
  execute_calls (tc ∷ calls) = do r ← execute_call tc; rs ← execute_calls calls; pure (r ∷ rs)

  -- Add tool results as messages.
  unfoldable pub add_results : Session → List ToolResult → Exec Db (List Message)
  add_results s [] = pure []
  add_results s (r ∷ rs) = do
    content ← Session.lift (shown A.dumps r)
    time ← now A.backend
    let m = tool_message content r time
    Session.add_message A.backend A.json s m
    ms ← add_results s rs
    pure (m ∷ ms)

  -- `row["id"]`
  row_id : Option Row → Exec Db String
  row_id none = raise (other "TypeError")
  row_id (some r) = Session.lift (Session.text_at "id" r)

  -- Persist a step with tool calls.
  persist : Session → Step → Message → Exec Db (Unit {0})
  unfolding row_id
  persist s step answer = do
    db_step ← StepRepo.create A.backend s.id step.step_number (some step.idempotency_key) none
    id ← row_id db_step
    StepRepo.update_status A.backend id "completed" (record {
      output_message = some (A.dump_message answer);
      tool_calls = some (A.dump_calls step.tool_calls);
      tool_results = some (A.dump_results step.tool_results);
      error = none;
    })

  -- Persist the last step, and mark the session completed.
  persist_last : Session → Step → Message → Exec Db (Unit {0})
  unfolding row_id
  persist_last s step answer = do
    StepRepo.create A.backend s.id step.step_number (some step.idempotency_key) none
    latest ← StepRepo.get_latest_by_session A.backend s.id
    id ← row_id latest
    StepRepo.update_status A.backend id "completed" (record {
      output_message = some (A.dump_message answer);
      tool_calls = none;
      tool_results = none;
      error = none;
    })
    SessionRepo.update_status A.backend s.id "completed"

  -- The three ways in which `run` builds its result.
  abbrev result_of :
      String → Session → Option ℕ → RunStatus → String → List Step → List Message → AgentResult
  result_of user_id s resumed status output steps messages = record {
    session_id = s.id;
    user_id = user_id;
    messages = messages;
    steps = steps;
    final_output = output;
    status = status;
    resumed_from_step = resumed;
  }

  -- What a step asks of the loop: to return a result, or to go on with the step and its messages.
  pub data Next : Type 0 where
    returns : AgentResult → Next
    goes_on : Step → List Message → Next

  module _ (user_id : String) (s : Session) (resumed : Option ℕ) where
    -- After an answer without tool calls.
    finish : Step → Message → List Step → List Message → Exec Db Next
    unfolding persist_last
    finish step answer steps messages = do
      time ← now A.backend
      let done = mark_completed step time
      persist_last s done answer
      pure (
          returns (
            result_of user_id s resumed RunStatus.completed (or_empty answer.content)
              (steps ++ done ∷ []) (messages ++ answer ∷ [])))

    -- After an answer with tool calls.
    use_tools : Step → LlmResponse → Exec Db Next
    unfolding persist
    use_tools step answer = do
      results ← execute_calls answer.tool_calls
      tool_messages ← add_results s results
      time ← now A.backend
      let done =
          mark_completed (record step { tool_calls = answer.tool_calls; tool_results = results })
            time
      persist s done answer.message
      pure (goes_on done (answer.message ∷ tool_messages))

    no_calls : List ToolCall → {B : Type 0} → B → B → B
    no_calls [] x y = x
    no_calls (c ∷ calls) x y = y

    -- The loop's body from the answer on.
    respond : Step → Result LlmResponse → List Step → List Message → Exec Db Next
    unfolding finish use_tools
    respond step (err e) steps messages = do
      time ← now A.backend
      pure (
          returns (
            result_of user_id s resumed RunStatus.failed ""
              (steps ++ mark_failed step (A.describe e) time ∷ []) messages))
    respond step (ok answer) steps messages = do
      let answered = record step { output_message = some answer.message }
      Session.add_message A.backend A.json s answer.message
      no_calls answer.tool_calls (finish answered answer.message steps messages)
          (use_tools answered answer)

    -- One round of `for step_num in range(1, max_steps + 1)`.
    round : String → ℕ → List Step → List Message → Exec Db Next
    unfolding respond no_calls
    round system_text step_num steps messages = do
      history ← Session.get_history A.backend A.json s 200 none
      time ← now A.backend
      let sent = system_message system_text time ∷ history
      id ← uuid4 A.backend
      key ← uuid4 A.backend
      started ← now A.backend
      respond (begin_step s resumed step_num (id, key) started sent) (A.chat step_num sent) steps
          messages

  -- The `return` of a round, or the next round with what this one has gathered.
  proceed :
      (List Step → List Message → Exec Db AgentResult)
      → List Step
      → List Message
      → Next
      → Exec Db AgentResult
  proceed rest steps messages (returns r) = pure r
  proceed rest steps messages (goes_on step new) = rest (steps ++ step ∷ []) (messages ++ new)

  -- The loop with `left` rounds to go.
  unfoldable pub steps_loop :
      String
      → Session
      → Option ℕ
      → String
      → (left step_num : ℕ) → List Step
      → List Message
      → Exec Db AgentResult
  unfolding proceed round respond no_calls finish use_tools persist persist_last row_id
  steps_loop user_id s resumed system_text zero step_num steps messages =
      pure (result_of user_id s resumed RunStatus.failed "" steps messages)
  steps_loop user_id s resumed system_text (suc left) step_num steps messages = do
    next ← round user_id s resumed system_text step_num steps messages
    proceed (steps_loop user_id s resumed system_text left (suc step_num)) steps messages next
