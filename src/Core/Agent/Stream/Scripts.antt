-- ===== src/Core/Agent/Stream/Scripts.antt =====
-- What `Agent.stream` yields when it ends without an exception.
use mathlib.Core.Path.{subst, ap₂}
use mathlib.Core.List.{append-nil}
use agent_sdk.Prelude.{
  ℕ, zero, suc, String, ◌≡◌, refl, ap, ◌∙◌, Option, none, some, List, [], ◌∷◌, ◌++◌, map,
}
use agent_sdk.Types.{Error, Result, ok, err}
use agent_sdk.Db.Exec.{World}
use agent_sdk.Core.Message.{ToolCall, ToolResult, Message}
use agent_sdk.Core.Tool
use agent_sdk.Core.Tool.{Tool}
use agent_sdk.Core.Session.{Session}
use agent_sdk.Core.Agent.{limit_of}
use agent_sdk.Core.Agent.Loop.{Agent, outcome, system_message}
use agent_sdk.Core.Agent.Loop.Answers.{outcome-id}
use agent_sdk.Core.Agent.Stream.{
  Loaded, Collected, collect, checked, relay, ended, tried, use_tools, finish, go_on, react, listen,
  steps_loop, stream_in_scope, stream,
}
use agent_sdk.Core.Agent.Stream.Yield.{
  StreamEvent, step_start, tool_result, step_end, done, Gen, pure, raise, emit, in_scope,
}
use agent_sdk.Core.Agent.Stream.Rules.{
  Yields, Yields-pure, Yields-bind, Yields-await, Yields-then, Yields-weaken, Yields-emit,
}
use agent_sdk.Db.Exec.Ensures.{Ensures}
use agent_sdk.Core.Agent.Stream.Script.{transcript, Heard, Script, exhausted, answered, used_tools}

module _ {Db : Type 0} (loads : String → Loaded) where
  checked-Yields :
      {B : Type 0} (r : Result B)
      → Yields (λ fs b. (fs ≡ []) × (r ≡ ok b)) (checked loads {Db = Db} r)
  unfolding checked pure raise
  checked-Yields (ok b) = record { at = λ w c e. (refl, e) }
  checked-Yields (err x) = record { at = λ w c e. (refl, e) }

  relay-Yields :
      (es : List StreamEvent) (c : Collected)
      → Yields (λ fs c'. (fs ≡ es) × (transcript loads es c ≡ ok c')) (relay loads {Db = Db} es c)
  unfolding relay
  relay-Yields [] c = Yields-pure c (refl, refl)
  relay-Yields (e ∷ es) c = Yields-emit _ e _ (
      Yields-bind _ _ _ (checked-Yields (collect loads e c)) λ fs c' h.
        Yields-weaken _ (relay-Yields es c')
          λ fs' x k. (ap (λ l. e ∷ l) (ap (λ l. l ++ fs') h.0 ∙ k.0), rw h.1 k.1))

module _ {Db : Type 0} (A : Agent Db)
    (chat_stream : ℕ → List Message → List StreamEvent × Option Error)
    (loads : String → Loaded) where
  ended-Yields : (o : Option Error) → Yields (λ fs _. (fs ≡ []) × (o ≡ none)) (ended {Db = Db} o)
  unfolding ended pure raise
  ended-Yields none = record { at = λ w c e. (refl, refl) }
  ended-Yields (some x) = record { at = λ w c e. cc }

  listen-Yields :
      (n : ℕ) (sent : List Message)
      → Yields
          (λ fs c. (fs ≡ (chat_stream n sent).0) × Heard chat_stream loads n sent c)
          (listen A chat_stream loads n sent)
  unfolding listen
  listen-Yields n sent = Yields-bind _ _ _ (relay-Yields loads _ _) λ fs c h.
      Yields-bind _ _ _ (ended-Yields (chat_stream n sent).1) λ fs' u k.
        Yields-pure c (
          ap (λ l. fs ++ (l ++ [])) k.0 ∙ append-nil fs ∙ h.0,
          record { ends = k.1; comes_to = h.1 },
        )

  tried-id :
      (tc : ToolCall) (t : Result (Tool Db)) → Ensures (λ r. r.tool_call_id ≡ tc.id) (tried A tc t)
  unfolding tried
  tried-id tc (err e) = record {
    at = λ w r same.
        subst (λ (x : ToolResult). x.tool_call_id ≡ tc.id) {x = outcome A tc (err e)} {y = r} (cc)
          (outcome-id A tc (err e));
  }
  tried-id tc (ok t) = record {
    at = λ w r e.
        subst (λ (x : ToolResult). x.tool_call_id ≡ tc.id)
          {x = outcome A tc (Tool.execute A.backend t tc.arguments w).0} {y = r} (cc)
          (outcome-id A tc _);
  }

  use_tools-Yields :
      (s : Session) (calls : List ToolCall)
      → Yields
          (λ fs _.
            (rs : List ToolResult) × (fs ≡ map tool_result rs)
            × (map (λ (r : ToolResult). r.tool_call_id) rs ≡ map (λ (k : ToolCall). k.id) calls))
          (use_tools A s calls)
  unfolding use_tools
  use_tools-Yields s [] = Yields-pure tt ([], refl, refl)
  use_tools-Yields s (tc ∷ calls) =
      Yields-await _ _ _ (tried-id tc (Tool.lookup tc.tool_name A.registry)) λ r id.
        Yields-then _ _ _ λ content. Yields-then _ _ _ λ time. Yields-then _ _ _ λ _.
          Yields-emit _ _ _ (
            Yields-weaken _ (use_tools-Yields s calls)
              λ fs u (rs, e, ids). (r ∷ rs, ap (λ l. tool_result r ∷ l) e, ap₂ (◌∷◌) id ids))

  -- What a round yields behind the events of the model, before the rounds `rest` that follow.
  finish-Yields :
      (s : Session) (n : ℕ) (content : String)
      → Yields (λ fs _. fs ≡ step_end n ∷ done (some content) none ∷ []) (finish A s n content)
  unfolding finish emit
  finish-Yields s n content =
      Yields-then _ _ _
        λ time. Yields-then _ _ _ λ _. Yields-emit _ _ _ (record { at = λ w u e. refl })

  go_on-Yields :
      {P : List StreamEvent → Unit {0} → Type 0} (s : Session) (n : ℕ) (c : Collected)
      (rest : Gen Db (Unit {0}))
      → Yields P rest
      → Yields
          (λ fs u.
            (rs : List ToolResult) × (es : List StreamEvent) × P es u
            × (fs ≡ map tool_result rs ++ (step_end n ∷ es))
            × (map (λ (r : ToolResult). r.tool_call_id) rs ≡ map (λ (k : ToolCall). k.id) c.calls))
          (go_on A s n c rest)
  unfolding go_on
  go_on-Yields s n c rest k = Yields-then _ _ _ λ time. Yields-then _ _ _ λ _.
      Yields-bind _ _ _ (use_tools-Yields s c.calls) λ fs u (rs, e, ids).
        Yields-emit _ _ _
          (Yields-weaken _ k λ es v p. (rs, es, p, ap (λ l. l ++ (step_end n ∷ es)) e, ids))

  module _ (s : Session) (n left : ℕ) (sent : List Message) (rest : Gen Db (Unit {0}))
      (k : Yields (λ es _. Script chat_stream loads (suc n) left es) rest) where
    react-Yields :
        (content : String) (calls : List ToolCall)
        → Heard chat_stream loads n sent (record { content = content; calls = calls })
        → Yields
            (λ fs _.
              Script chat_stream loads n (suc left) (step_start n ∷ ((chat_stream n sent).0 ++ fs)))
            (react A s n (record { content = content; calls = calls }) rest)
    unfolding react
    react-Yields content [] heard =
        Yields-weaken _ (finish-Yields s n content) λ fs _ e.
          rw e (answered n left sent (record { content = content; calls = [] }) heard refl)
    react-Yields content (tc ∷ calls) heard =
        Yields-weaken _ (go_on-Yields s n (record { content = content; calls = tc ∷ calls }) rest k)
          λ fs _ (rs, es, script, e, ids). rw e (
            used_tools n left sent (record { content = content; calls = tc ∷ calls }) rs es heard
              (λ no_call. cc) ids script)

  steps_loop-Yields :
      (s : Session) (system_text : String) (left n : ℕ)
      → Yields
          (λ es _. Script chat_stream loads n left es)
          (steps_loop A chat_stream loads s system_text left n)
  unfolding steps_loop emit
  steps_loop-Yields s system_text zero n = record { at = λ w u e. exhausted n }
  steps_loop-Yields s system_text (suc left) n = Yields-emit _ _ _ (
      Yields-then _ _ _ λ history. Yields-then _ _ _ λ time.
        Yields-bind _ _ _ (listen-Yields n (system_message system_text time ∷ history))
          λ fs c (same, heard). rw same (
            react-Yields s n left (system_message system_text time ∷ history) _
              (steps_loop-Yields s system_text left (suc n)) c.content c.calls heard))

  module _ (user_id : String) (input : List Message) (session_id : Option String)
      (max_steps : Option ℕ) (w : World Db) where
    -- A stream that is read to its end, and that raises no exception, yields at most `max_steps`
    -- rounds, numbered from 1, then the event `done`. A round is `step_start`, then the events of the
    -- model's stream as they are, then one `tool_result` for each tool call that they come to, in
    -- order and under the call's id, then `step_end`. A round without tool calls is the last, and
    -- `done` has its text; otherwise `done` tells that the rounds were used up.
    pub stream-Script :
        (stream A chat_stream loads user_id input session_id max_steps w).0.1 ≡ ok tt
        → Script chat_stream loads 1
            (limit_of A max_steps)
            (stream A chat_stream loads user_id input session_id max_steps w).0.0
    unfolding stream stream_in_scope in_scope
    stream-Script = body.at (record w { scope = some user_id }) tt
      where
        body :
            Yields
              (λ es _. Script chat_stream loads 1 (limit_of A max_steps) es)
              (stream_in_scope A chat_stream loads input session_id max_steps)
        body = Yields-then _ _ _ λ opened.
            Yields-then _ _ _
              λ _. steps_loop-Yields opened.0 (A.instructions opened.0) (limit_of A max_steps) 1
