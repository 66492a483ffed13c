-- ===== src/Core/Agent/Loop/Returns.antt =====
-- The step loop returns, if the database accepts its statements and the tools keep it readable.
use agent_sdk.Prelude.{ℕ, zero, suc, String, ◌≡◌, refl, true, Option, none, some, List, [], ◌∷◌}
use agent_sdk.Types.{SessionStatus, Result, ok, err}
use agent_sdk.Db.Sql.{Row}
use agent_sdk.Db.Exec.{World, Exec, ◌>>=◌, uuid4}
use agent_sdk.Db.Exec.Returns.{Returns, Returns-pure, Returns-bind, Returns-weaken, Returns-given}
use agent_sdk.Core.Message.{ToolCall, ToolResult, Message, LlmResponse, Step, mark_completed}
use agent_sdk.Core.Session
use agent_sdk.Core.Session.{Session, status_value}
use agent_sdk.Core.Tool
use agent_sdk.Core.Tool.{Tool, wrap}
use agent_sdk.Core.Sound.{is_sound, sound-step-id}
use agent_sdk.Core.Sound.Writes.{Accepts, Sound}
use agent_sdk.Core.Sound.Reads.{returns-uuid4, returns-now}
use agent_sdk.Core.Sound.Operations.{
  returns-lift, returns-some, returns-create_step, returns-latest, returns-step_status,
  returns-session_status,
}
use agent_sdk.Core.Sound.Messages.{returns-append, returns-history}
use agent_sdk.Core.Agent.Loop.{
  Agent, AgentResult, system_message, begin_step, outcome, shown, Next, returns, goes_on, executed,
  execute_call, execute_calls, add_results, row_id, persist, persist_last, finish, use_tools,
  no_calls, respond, round, proceed, steps_loop,
}

-- The tools of the agent, whether they return or raise, leave the database readable and the user
-- in scope, and json.dumps takes what they return.
pub record Tame {Db : Type 0} (A : Agent Db) (u : String) : Type 0 where
  pub tame :
      (name arguments : String) (t : Tool Db) (w : World Db)
      → Tool.lookup name A.registry ≡ ok t
      → Sound A.backend u w
      → Sound A.backend u (t.fn arguments w).1
  pub written :
      (name arguments value : String) (t : Tool Db) (w : World Db)
      → Tool.lookup name A.registry ≡ ok t
      → (t.fn arguments w).0 ≡ ok (some value)
      → (text : String) × (A.dumps value ≡ some text)

module _ {Db : Type 0} (A : Agent Db) (u : String) (acc : Accepts A.backend)
    (tools : Tame A u) where
  abbrev Good : World Db → Type 0
  Good = Sound A.backend u

  execute-Good :
      (name arguments : String) (t : Tool Db) (w : World Db)
      → Tool.lookup name A.registry ≡ ok t
      → Good w
      → Good (Tool.execute A.backend t arguments w).1
  unfolding Tool.execute uuid4 ◌>>=◌
  execute-Good name arguments t w e v =
      tools.tame name arguments t _ e (record { tables = v.tables; scoped = v.scoped })

  -- The message of a result can be made.
  abbrev IsShown : ToolResult → Type 0
  IsShown r = (content : Option String) × (shown A.dumps r ≡ ok content)

  AreShown : List ToolResult → Type 0
  AreShown [] = Unit
  AreShown (r ∷ rs) = IsShown r × AreShown rs

  outcome-IsShown :
      (tc : ToolCall) (call_id : String) (r : Result (Option String))
      → ((value : String) → r ≡ ok (some value) → (text : String) × (A.dumps value ≡ some text))
      → IsShown (outcome A tc (wrap call_id r))
  outcome-IsShown tc call_id (ok none) h = (_, refl)
  outcome-IsShown tc call_id (err e) h = (_, refl)
  outcome-IsShown tc call_id (ok (some value)) h =
      let (text, e) = h value refl in (some text, rw e refl)

  executed-IsShown :
      (tc : ToolCall) (t : Tool Db) (w : World Db)
      → Tool.lookup tc.tool_name A.registry ≡ ok t
      → IsShown (outcome A tc (Tool.execute A.backend t tc.arguments w).0)
  unfolding Tool.execute uuid4 ◌>>=◌
  executed-IsShown tc t w e =
      outcome-IsShown tc (A.backend.uuid4 w.reads) (t.fn tc.arguments (uuid4 A.backend w).1).0
        (λ value r. tools.written tc.tool_name tc.arguments value t (uuid4 A.backend w).1 e r)

  returns-executed :
      (tc : ToolCall) (found : Result (Tool Db))
      → Tool.lookup tc.tool_name A.registry ≡ found
      → Returns Good (executed A tc found) (λ r w. Good w × IsShown r)
  unfolding executed
  returns-executed tc (err e) h = record { at = λ w v. (_, refl, (v, (_, refl))) }
  returns-executed tc (ok t) h = record {
    at = λ w v.
        (_, refl, (execute-Good tc.tool_name tc.arguments t w h v, executed-IsShown tc t w h));
  }

  returns-calls :
      (calls : List ToolCall) → Returns Good (execute_calls A calls) (λ rs w. Good w × AreShown rs)
  unfolding execute_calls execute_call AreShown
  returns-calls [] = Returns-pure [] (λ w v. (v, tt))
  returns-calls (tc ∷ calls) =
      Returns-bind _ _ (returns-executed tc (Tool.lookup tc.tool_name A.registry) refl) λ r.
        Returns-given _ λ one.
          Returns-bind _ _ (returns-calls calls)
            λ rs. Returns-pure _ (λ w (v, all). (v, (one, all)))

  pub returns-add :
      (s : Session) (m : Message)
      → Returns Good (Session.add_message A.backend A.json s m) (λ _. Good)
  unfolding Session.add_message
  returns-add s m = returns-append A.json A.backend u acc s.id m

  returns-results :
      (s : Session) (rs : List ToolResult)
      → AreShown rs
      → Returns Good (add_results A s rs) (λ _. Good)
  unfolding add_results AreShown
  returns-results s [] h = Returns-pure [] (λ w v. v)
  returns-results s (r ∷ rs) ((content, e), h) = Returns-bind _ _ (returns-lift _ content e) λ _.
      Returns-bind _ _ (returns-now A.backend u) λ time.
        Returns-bind _ _ (returns-add s _)
          λ _. Returns-bind _ _ (returns-results s rs h) λ ms. Returns-pure _ (λ w v. v)

  returns-row_id :
      {Pre : World Db → Type 0} (o : Option Row)
      → Returns
          (λ w. Pre w × ((r : Row) × (o ≡ some r) × (is_sound "steps" r ≡ true)))
          (row_id A o)
          (λ _. Pre)
  unfolding row_id
  returns-row_id o =
      returns-some (row_id A) (λ r s. let (id, e) = sound-step-id r s in returns-lift _ id e) o

  returns-persist :
      (s : Session) (step : Step) (answer : Message)
      → Returns Good (persist A s step answer) (λ _. Good)
  unfolding persist
  returns-persist s step answer =
      Returns-bind _ _
        (returns-create_step A.backend u acc s.id step.step_number step.idempotency_key)
        λ row. Returns-bind _ _ (returns-row_id row) λ id.
          Returns-weaken (returns-step_status A.backend u acc id _ _) (λ w p. p.0) (λ _ w v. v)

  returns-persist_last :
      (s : Session) (step : Step) (answer : Message)
      → Returns Good (persist_last A s step answer) (λ _. Good)
  unfolding persist_last status_value
  returns-persist_last s step answer =
      Returns-bind _ _
        (returns-create_step A.backend u acc s.id step.step_number step.idempotency_key)
        λ row.
          Returns-bind _ _
            (Returns-weaken (returns-latest A.backend u acc s.id) (λ w p. p.0) (λ _ w p. p))
            λ latest. Returns-bind _ _ (returns-row_id latest) λ id.
              Returns-bind _ _ (returns-step_status A.backend u acc id _ _)
                λ _. returns-session_status A.backend u acc s.id SessionStatus.completed

  module _ (user_id : String) (s : Session) (resumed : Option ℕ) where
    returns-finish :
        (step : Step) (answer : Message) (steps : List Step) (messages : List Message)
        → Returns Good (finish A user_id s resumed step answer steps messages) (λ _. Good)
    unfolding finish
    returns-finish step answer steps messages = Returns-bind _ _ (returns-now A.backend u) λ time.
        Returns-bind _ _ (returns-persist_last s (mark_completed step time) answer)
          λ _. Returns-pure _ (λ w v. v)

    returns-use_tools :
        (step : Step) (answer : LlmResponse)
        → Returns Good (use_tools A user_id s resumed step answer) (λ _. Good)
    unfolding use_tools
    returns-use_tools step answer = Returns-bind _ _ (returns-calls answer.tool_calls) λ results.
        Returns-given _ λ all. Returns-bind _ _ (returns-results s results all) λ ms.
          Returns-bind _ _ (returns-now A.backend u) λ time.
            Returns-bind _ _
              (returns-persist s
                (mark_completed
                  (record step { tool_calls = answer.tool_calls; tool_results = results }) time)
                answer.message)
              λ _. Returns-pure _ (λ w v. v)

    returns-either :
        (calls : List ToolCall) (x y : Exec Db (Next A))
        → Returns Good x (λ _. Good)
        → Returns Good y (λ _. Good)
        → Returns Good (no_calls A user_id s resumed calls x y) (λ _. Good)
    unfolding no_calls
    returns-either [] x y p q = p
    returns-either (c ∷ calls) x y p q = q

    returns-respond :
        (step : Step) (reply : Result LlmResponse) (steps : List Step) (messages : List Message)
        → Returns Good (respond A user_id s resumed step reply steps messages) (λ _. Good)
    unfolding respond
    returns-respond step (err e) steps messages =
        Returns-bind _ _ (returns-now A.backend u) λ time. Returns-pure _ (λ w v. v)
    returns-respond step (ok answer) steps messages =
        Returns-bind _ _ (returns-add s answer.message) λ _.
          returns-either answer.tool_calls _ _
            (returns-finish answered answer.message steps messages)
            (returns-use_tools answered answer)
      where
        answered : Step
        answered = record step { output_message = some answer.message }

    returns-round :
        (system_text : String) (n : ℕ) (steps : List Step) (messages : List Message)
        → Returns Good (round A user_id s resumed system_text n steps messages) (λ _. Good)
    unfolding round Session.get_history
    returns-round system_text n steps messages =
        Returns-bind _ _ (returns-history A.json A.backend u s.id 200) λ history.
          Returns-bind _ _ (returns-now A.backend u) λ time.
            Returns-bind _ _ (returns-uuid4 A.backend u) λ id.
              Returns-bind _ _ (returns-uuid4 A.backend u) λ key.
                Returns-bind _ _ (returns-now A.backend u) λ started.
                  let sent = system_message system_text time ∷ history in
                  returns-respond (begin_step s resumed n (id, key) started sent) _ steps messages

    returns-proceed :
        (rest : List Step → List Message → Exec Db AgentResult) (steps : List Step)
        (messages : List Message) (next : Next A)
        → ((ss : List Step) (ms : List Message) → Returns Good (rest ss ms) (λ _. Good))
        → Returns Good (proceed A rest steps messages next) (λ _. Good)
    unfolding proceed
    returns-proceed rest steps messages (returns r) k = Returns-pure r (λ w v. v)
    returns-proceed rest steps messages (goes_on step new) k = k _ _

    pub returns-steps_loop :
        (system_text : String) (left n : ℕ) (steps : List Step) (messages : List Message)
        → Returns Good
            (steps_loop A user_id s resumed system_text left n steps messages)
            (λ _. Good)
    unfolding steps_loop
    returns-steps_loop system_text zero n steps messages = Returns-pure _ (λ w v. v)
    returns-steps_loop system_text (suc left) n steps messages =
        Returns-bind _ _ (returns-round system_text n steps messages) λ next.
          returns-proceed _ steps messages next
            (λ ss ms. returns-steps_loop system_text left (suc n) ss ms)
