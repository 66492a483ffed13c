-- ===== src/Core/Agent/Stream.antt =====
-- agent_sdk/core/agent.py: `Agent.stream`, and the StreamEvent of agent_sdk/core/message.py. The
-- stream of the model, `chat_stream`, is a parameter: what it yields at its n-th call, and the
-- exception with which it ends, if any. The generator is read to its end.
pub mod Yield
pub mod Rules
pub mod Script
pub mod Scripts
pub mod Fragments
pub mod Tests
use Prim.Native.String
use agent_sdk.Prelude.{
  ℕ, zero, suc, String, Bool, true, false, Option, none, some, List, [], ◌∷◌, ◌++◌, str_eq,
  if◌then◌else◌,
}
use agent_sdk.Types.{MessageRole, Error, other, Result, ok, err}
use agent_sdk.Db.Exec
use agent_sdk.Db.Exec.{Exec, World, now}
use agent_sdk.Core.Message.{ToolCall, ToolResult, Message}
use agent_sdk.Core.Session
use agent_sdk.Core.Session.{Session}
use agent_sdk.Core.Tool
use agent_sdk.Core.Tool.{Tool}
use agent_sdk.Core.Agent.Loop.{Agent, outcome, shown, tool_message, system_message}
use agent_sdk.Core.Agent.{open_session, add_all, limit_of}
use Yield.{
  Delta, StreamEvent, step_start, token, tool_call, tool_result, step_end, done, error, Gen, pure,
  raise, ◌>>=◌, ◌>>◌, emit, lift, in_scope,
}

-- What `json.loads` makes of a text: nothing, a dict, or a value that is no dict.
pub data Loaded : Type 0 where
  invalid another : Loaded
  dict : String → Loaded

-- What the stream of one round has collected.
pub record Collected : Type 0 where
  pub content : String
  pub calls : List ToolCall

-- `ToolCall(…)`, whose fields pydantic validates.
abbrev pub validated : Option String → String → Loaded → Result (List ToolCall)
validated none name l = err (other "ValidationError")
validated (some id) name invalid = ok (record { id = id; tool_name = name; arguments = "{}" } ∷ [])
validated (some id) name (dict t) = ok (record { id = id; tool_name = name; arguments = t } ∷ [])
validated (some id) name another = err (other "ValidationError")

abbrev pub joined : Result (List ToolCall) → Result (List ToolCall) → Result (List ToolCall)
joined (err e) rest = err e
joined (ok cs) (err e) = err e
joined (ok cs) (ok ds) = ok (cs ++ ds)

abbrev pub extended : Collected → Result (List ToolCall) → Result Collected
extended c (err e) = err e
extended c (ok cs) = ok (record c { calls = c.calls ++ cs })

module _ (loads : String → Loaded) where
  -- `fn_args_raw` that is None is no dict.
  abbrev pub load_arguments : Option String → Loaded
  load_arguments none = another
  load_arguments (some t) = loads t

  -- The call of one `tc_data`, if it has a name.
  unfoldable pub call_of : Delta → Result (List ToolCall)
  call_of d = elim d.name [
    | none ↦ ok []
    | some name ↦ if str_eq name "" then ok [] else validated d.id name (load_arguments d.arguments)
  ]

  unfoldable pub calls_of : List Delta → Result (List ToolCall)
  calls_of [] = ok []
  calls_of (d ∷ ds) = joined (call_of d) (calls_of ds)

  -- What one event of the model adds.
  unfoldable pub collect : StreamEvent → Collected → Result Collected
  collect (token t) c = ok (record c { content = String.◌++◌ c.content t })
  collect (tool_call ds) c = extended c (calls_of ds)
  collect _ c = ok c

  module _ {Db : Type 0} where
    unfoldable pub checked : {B : Type 0} → Result B → Gen Db B
    checked (ok b) = pure b
    checked (err e) = raise e

    -- The `async for` over the model's events.
    unfoldable pub relay : List StreamEvent → Collected → Gen Db Collected
    unfolding checked
    relay [] c = pure c
    relay (e ∷ es) c = do emit e; c' ← checked (collect e c); relay es c'

-- How the model's stream ends.
unfoldable pub ended : {Db : Type 0} → Option Error → Gen Db (Unit {0})
ended none = pure tt
ended (some e) = raise e

-- `collected_content or None`
abbrev or_none : String → Option String
or_none content = if str_eq content "" then none else some content

abbrev pub assistant_message : Option String → Option (List ToolCall) → String → Message
assistant_message content calls time = record {
  role = MessageRole.assistant;
  content = content;
  tool_calls = calls;
  tool_call_id = none;
  name = none;
  timestamp = time;
  metadata = "{}";
}

module _ {Db : Type 0} (A : Agent Db) where
  tried : ToolCall → Result (Tool Db) → Exec Db ToolResult
  tried tc (err e) w = (ok (outcome A tc (err e)), w)
  tried tc (ok t) w =
      let (r, w') = Tool.execute A.backend t tc.arguments w in (ok (outcome A tc r), w')

  -- The `try` block around a tool call.
  abbrev try_call : ToolCall → Exec Db ToolResult
  try_call tc = tried tc (Tool.lookup tc.tool_name A.registry)

  -- `for tc in collected_tool_calls:`
  unfoldable pub use_tools : Session → List ToolCall → Gen Db (Unit {0})
  unfolding tried
  use_tools s [] = pure tt
  use_tools s (tc ∷ calls) = do
    r ← lift (try_call tc)
    content ← lift (Session.lift (shown A.dumps r))
    time ← lift (now A.backend)
    lift (Session.add_message A.backend A.json s (tool_message content r time))
    emit (tool_result r)
    use_tools s calls

  -- The final output: no tool calls.
  unfoldable pub finish : Session → ℕ → String → Gen Db (Unit {0})
  finish s step_num content = do
    time ← lift (now A.backend)
    lift (Session.add_message A.backend A.json s (assistant_message (some content) none time))
    emit (step_end step_num)
    emit (done (some content) none)

  -- The tool calls of a round, and the rounds that follow.
  unfoldable pub go_on : Session → ℕ → Collected → Gen Db (Unit {0}) → Gen Db (Unit {0})
  unfolding use_tools
  go_on s step_num c rest = do
    time ← lift (now A.backend)
    lift (
        Session.add_message A.backend A.json s
          (assistant_message (or_none c.content) (some c.calls) time))
    use_tools s c.calls
    emit (step_end step_num)
    rest

  unfoldable pub react : Session → ℕ → Collected → Gen Db (Unit {0}) → Gen Db (Unit {0})
  unfolding finish go_on
  react s step_num c rest = elim c.calls [
    | [] ↦ finish s step_num c.content
    | tc ∷ calls ↦ go_on s step_num c rest
  ]

  module _ (chat_stream : ℕ → List Message → List StreamEvent × Option Error)
      (loads : String → Loaded) where
    -- The events of the model in a round, and what they come to.
    unfoldable pub listen : ℕ → List Message → Gen Db Collected
    unfolding relay ended
    listen step_num sent = do
      c ← relay loads (chat_stream step_num sent).0 (record { content = ""; calls = [] })
      ended (chat_stream step_num sent).1
      pure c

    -- `for step_num in range(1, max_steps + 1)`, with `left` rounds to go.
    unfoldable pub steps_loop : Session → String → (left step_num : ℕ) → Gen Db (Unit {0})
    unfolding react listen
    steps_loop s system_text zero step_num = emit (done (some "") (some "max_steps_reached"))
    steps_loop s system_text (suc left) step_num = do
      emit (step_start step_num)
      history ← lift (Session.get_history A.backend A.json s 200 none)
      time ← lift (now A.backend)
      c ← listen step_num (system_message system_text time ∷ history)
      react s step_num c (steps_loop s system_text left (suc step_num))

    stream_in_scope : List Message → Option String → Option ℕ → Gen Db (Unit {0})
    unfolding steps_loop
    stream_in_scope input session_id max_steps = do
      opened ← lift (open_session A session_id false)
      lift (add_all A opened.0 input)
      steps_loop opened.0 (A.instructions opened.0) (limit_of A max_steps) 1

    -- A text given as input is a list of one user message.
    pub stream : String → List Message → Option String → Option ℕ → Gen Db (Unit {0})
    unfolding stream_in_scope
    stream user_id input session_id max_steps =
        in_scope user_id (stream_in_scope input session_id max_steps)
