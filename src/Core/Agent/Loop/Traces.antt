-- ===== src/Core/Agent/Loop/Traces.antt =====
-- What a run is, apart from the database: the rounds between the model and the tools.
use agent_sdk.Prelude.{
  ℕ, zero, suc, ◌+◌, String, ◌≡◌, ◌≢◌, refl, sym, ap, ◌∙◌, Option, some, List, [], ◌∷◌, ◌++◌, map,
}
use mathlib.Core.List.{append-nil, append_assoc, map-map}
use agent_sdk.Types.{RunStatus, Error, Result, ok, err}
use agent_sdk.Db.Exec.{Exec}
use agent_sdk.Db.Exec.Ensures.{Ensures, Ensures-pure, Ensures-then, Ensures-bind, Ensures-weaken}
use agent_sdk.Core.Message.{
  ToolCall, ToolResult, Message, LlmResponse, Step, mark_completed, mark_failed,
}
use agent_sdk.Core.Session.{Session}
use agent_sdk.Core.Agent.Loop.{
  Agent, AgentResult, Next, returns, goes_on, or_zero, or_empty, system_message, begin_step,
  execute_calls, finish, use_tools, no_calls, respond, round, proceed, steps_loop,
}
use agent_sdk.Core.Agent.Loop.Answers.{execute_calls-ids, add_results-ids}

module _ {Db : Type 0} (A : Agent Db) (resumed : Option ℕ) where
  -- The messages answer these tool calls: one for each, in order, under its id.
  abbrev pub Answer : List ToolCall → List Message → Type 0
  Answer calls ms =
      map (λ (m : Message). m.tool_call_id) ms ≡ map (λ (c : ToolCall). some c.id) calls

  -- `Trace n left ms ss status output`: from round `n` on, with at most `left` rounds, the run adds
  -- the messages `ms` and the steps `ss` and ends with this status and output.
  pub data Trace : ℕ → ℕ → List Message → List Step → RunStatus → String → Type 0 where
    exhausted : (n : ℕ) → Trace n 0 [] [] RunStatus.failed ""
    model_failed :
        (n left : ℕ) (sent : List Message) (e : Error) (st : Step)
        → A.chat n sent ≡ err e
        → st.step_number ≡ or_zero resumed + n
        → Trace n (suc left) [] (st ∷ []) RunStatus.failed ""
    answered :
        (n left : ℕ) (sent : List Message) (r : LlmResponse) (st : Step)
        → A.chat n sent ≡ ok r
        → r.tool_calls ≡ []
        → st.step_number ≡ or_zero resumed + n
        → Trace n
            (suc left)
            (r.message ∷ [])
            (st ∷ [])
            RunStatus.completed
            (or_empty r.message.content)
    used_tools :
        (n left : ℕ) (sent : List Message) (r : LlmResponse) (st : Step) (tools ms : List Message)
        (ss : List Step) (status : RunStatus) (output : String)
        → A.chat n sent ≡ ok r
        → r.tool_calls ≢ []
        → Answer r.tool_calls tools
        → st.step_number ≡ or_zero resumed + n
        → Trace (suc n) left ms ss status output
        → Trace n (suc left) (r.message ∷ (tools ++ ms)) (st ∷ ss) status output

  -- The result extends what the loop has gathered by a trace.
  pub record Extends (n left : ℕ) (steps : List Step) (messages : List Message) (res : AgentResult)
      : Type 0 where
    pub new_messages : List Message
    pub new_steps : List Step
    pub messages_eq : res.messages ≡ messages ++ new_messages
    pub steps_eq : res.steps ≡ steps ++ new_steps
    pub resumed_eq : res.resumed_from_step ≡ resumed
    pub trace : Trace n left new_messages new_steps res.status res.final_output

  -- What one round does.
  abbrev RoundOf : ℕ → ℕ → List Step → List Message → Next A → Type 0
  RoundOf n left steps messages (returns res) = Extends n (suc left) steps messages res
  RoundOf n left steps messages (goes_on st new) =
      (sent : List Message) × (r : LlmResponse) × (tools : List Message) × (A.chat n sent ≡ ok r)
      × (r.tool_calls ≢ [])
      × Answer r.tool_calls tools
      × (st.step_number ≡ or_zero resumed + n)
      × (new ≡ r.message ∷ tools)

  execute_calls-Ensures :
      (calls : List ToolCall)
      → Ensures
          (λ rs. map (λ (r : ToolResult). r.tool_call_id) rs ≡ map (λ (c : ToolCall). c.id) calls)
          (execute_calls A calls)
  execute_calls-Ensures calls = record {
    at = λ w rs e.
        let (rs', ran, ids) = execute_calls-ids A calls w in
        let same : rs ≡ rs' = cc in rw same ids;
  }

  Answer-of :
      (calls : List ToolCall) (rs : List ToolResult) (ms : List Message)
      → map (λ (r : ToolResult). r.tool_call_id) rs ≡ map (λ (c : ToolCall). c.id) calls
      → map (λ (m : Message). m.tool_call_id) ms ≡ map (λ (r : ToolResult). some r.tool_call_id) rs
      → Answer calls ms
  Answer-of calls rs ms ids shown =
      shown
      ∙ sym (map-map some (λ (r : ToolResult). r.tool_call_id) rs)
      ∙ ap (map some) ids
      ∙ map-map some (λ (c : ToolCall). c.id) calls

  after_round :
      (n left : ℕ) (steps : List Step) (messages : List Message) (st : Step) (new : List Message)
      (res : AgentResult)
      → RoundOf n left steps messages (goes_on st new)
      → Extends (suc n) left (steps ++ st ∷ []) (messages ++ new) res
      → Extends n (suc left) steps messages res
  after_round n left steps messages st new res (sent, r, tools, chat, called, ans, num, e) x =
      record {
        new_messages = r.message ∷ (tools ++ x.new_messages);
        new_steps = st ∷ x.new_steps;
        messages_eq =
            x.messages_eq
            ∙ append_assoc messages new x.new_messages
            ∙ ap (λ (l : List Message). messages ++ (l ++ x.new_messages)) e;
        steps_eq = x.steps_eq ∙ append_assoc steps (st ∷ []) x.new_steps;
        resumed_eq = x.resumed_eq;
        trace =
            used_tools n left sent r st tools x.new_messages x.new_steps res.status res.final_output
              chat called ans num x.trace;
      }

  module _ (user_id : String) (s : Session) where
    finish-RoundOf :
        (n left : ℕ) (sent : List Message) (r : LlmResponse) (st : Step) (steps : List Step)
        (messages : List Message)
        → A.chat n sent ≡ ok r
        → r.tool_calls ≡ []
        → st.step_number ≡ or_zero resumed + n
        → Ensures
            (RoundOf n left steps messages)
            (finish A user_id s resumed st r.message steps messages)
    unfolding finish
    finish-RoundOf n left sent r st steps messages chat none_called num = Ensures-then _ _ _ λ time.
        Ensures-then _ _ _ λ _. Ensures-pure _ (record {
          new_messages = r.message ∷ [];
          new_steps = mark_completed st time ∷ [];
          messages_eq = refl;
          steps_eq = refl;
          resumed_eq = refl;
          trace = answered n left sent r (mark_completed st time) chat none_called num;
        })

    use_tools-RoundOf :
        (n left : ℕ) (sent : List Message) (r : LlmResponse) (st : Step) (steps : List Step)
        (messages : List Message)
        → A.chat n sent ≡ ok r
        → r.tool_calls ≢ []
        → st.step_number ≡ or_zero resumed + n
        → Ensures (RoundOf n left steps messages) (use_tools A user_id s resumed st r)
    unfolding use_tools
    use_tools-RoundOf n left sent r st steps messages chat called num =
        Ensures-bind _ _ _ (execute_calls-Ensures r.tool_calls) λ rs ids.
          Ensures-bind _ _ _ (add_results-ids A s rs) λ ms shown. Ensures-then _ _ _ λ time.
            Ensures-then _ _ _ λ _.
              Ensures-pure _
                (sent, r, ms, chat, called, Answer-of r.tool_calls rs ms ids shown, num, refl)

    answered-RoundOf :
        (n left : ℕ) (sent : List Message) (r : LlmResponse) (st : Step) (steps : List Step)
        (messages : List Message) (calls : List ToolCall)
        → A.chat n sent ≡ ok r
        → r.tool_calls ≡ calls
        → st.step_number ≡ or_zero resumed + n
        → Ensures (RoundOf n left steps messages) (
            no_calls A user_id s resumed calls
              (finish A user_id s resumed st r.message steps messages)
              (use_tools A user_id s resumed st r))
    unfolding no_calls
    answered-RoundOf n left sent r st steps messages [] chat e num =
        finish-RoundOf n left sent r st steps messages chat e num
    answered-RoundOf n left sent r st steps messages (c ∷ calls) chat e num =
        use_tools-RoundOf n left sent r st steps messages chat (λ f. cc (e, f)) num

    respond-RoundOf :
        (n left : ℕ) (sent : List Message) (reply : Result LlmResponse) (st : Step)
        (steps : List Step) (messages : List Message)
        → A.chat n sent ≡ reply
        → st.step_number ≡ or_zero resumed + n
        → Ensures
            (RoundOf n left steps messages)
            (respond A user_id s resumed st reply steps messages)
    unfolding respond
    respond-RoundOf n left sent (err e) st steps messages chat num = Ensures-then _ _ _ λ time.
        Ensures-pure _ (record {
          new_messages = [];
          new_steps = mark_failed st (A.describe e) time ∷ [];
          messages_eq = sym (append-nil messages);
          steps_eq = refl;
          resumed_eq = refl;
          trace = model_failed n left sent e (mark_failed st (A.describe e) time) chat num;
        })
    respond-RoundOf n left sent (ok r) st steps messages chat num = Ensures-then _ _ _ λ _.
        answered-RoundOf n left sent r (record st { output_message = some r.message }) steps
          messages r.tool_calls chat refl num

    round-RoundOf :
        (system_text : String) (n left : ℕ) (steps : List Step) (messages : List Message)
        → Ensures
            (RoundOf n left steps messages)
            (round A user_id s resumed system_text n steps messages)
    unfolding round
    round-RoundOf system_text n left steps messages = Ensures-then _ _ _ λ history.
        Ensures-then _ _ _ λ time. Ensures-then _ _ _ λ id. Ensures-then _ _ _ λ key.
          Ensures-then _ _ _ λ started.
            respond-RoundOf n left (system_message system_text time ∷ history) _
              (begin_step s resumed n (id, key) started (system_message system_text time ∷ history))
              steps messages refl refl

    proceed-Extends :
        (n left : ℕ) (steps : List Step) (messages : List Message)
        (rest : List Step → List Message → Exec Db AgentResult) (next : Next A)
        → ((ss : List Step) (ms : List Message) → Ensures (Extends (suc n) left ss ms) (rest ss ms))
        → RoundOf n left steps messages next
        → Ensures (Extends n (suc left) steps messages) (proceed A rest steps messages next)
    unfolding proceed
    proceed-Extends n left steps messages rest (returns r) ih h = Ensures-pure r h
    proceed-Extends n left steps messages rest (goes_on step new) ih h =
        Ensures-weaken _ (ih (steps ++ step ∷ []) (messages ++ new))
          (λ res x. after_round n left steps messages step new res h x)

    -- Every result that the loop returns extends what it was given by a trace.
    pub steps_loop-Extends :
        (system_text : String) (left n : ℕ) (steps : List Step) (messages : List Message)
        → Ensures
            (Extends n left steps messages)
            (steps_loop A user_id s resumed system_text left n steps messages)
    unfolding steps_loop
    steps_loop-Extends system_text zero n steps messages = Ensures-pure _ (record {
      new_messages = [];
      new_steps = [];
      messages_eq = sym (append-nil messages);
      steps_eq = sym (append-nil steps);
      resumed_eq = refl;
      trace = exhausted n;
    })
    steps_loop-Extends system_text (suc left) n steps messages =
        Ensures-bind _ _ _ (round-RoundOf system_text n left steps messages) λ next h.
          proceed-Extends n left steps messages _ next
            (λ ss ms. steps_loop-Extends system_text left (suc n) ss ms) h
