-- ===== src/Core/Agent/Loop/Answers.antt =====
-- Every tool call of an answer gets its answer.
use agent_sdk.Prelude.{◌≡◌, refl, ap, ◌∙◌, some, List, [], ◌∷◌, map}
use mathlib.Core.Path.{ap₂}
use agent_sdk.Types.{Result, ok, err}
use agent_sdk.Db.Exec.{World, pure, bind-ok}
use agent_sdk.Db.Exec.Ensures.{Ensures, Ensures-pure, Ensures-then, Ensures-bind}
use agent_sdk.Core.Message.{ToolCall, ToolResult, Message}
use agent_sdk.Core.Session.{Session}
use agent_sdk.Core.Tool
use agent_sdk.Core.Tool.{Tool}
use agent_sdk.Core.Agent.Loop.{
  Agent, outcome, executed, not_found, execute_call, execute_calls, add_results,
}

module _ {Db : Type 0} (A : Agent Db) where
  pub outcome-id : (tc : ToolCall) (r : Result ToolResult) → (outcome A tc r).tool_call_id ≡ tc.id
  outcome-id tc (ok r) = refl
  outcome-id tc (err e) = refl

  executed-ok :
      (tc : ToolCall) (found : Result (Tool Db)) (w : World Db)
      → (r : ToolResult) × ((executed A tc found w).0 ≡ ok r) × (r.tool_call_id ≡ tc.id)
  unfolding executed
  executed-ok tc (err e) w = (not_found tc, refl, refl)
  executed-ok tc (ok t) w =
      let r : Result ToolResult = (Tool.execute A.backend t tc.arguments w).0 in
      (outcome A tc r, refl, outcome-id tc r)

  execute_call-ok :
      (tc : ToolCall) (w : World Db)
      → (r : ToolResult) × ((execute_call A tc w).0 ≡ ok r) × (r.tool_call_id ≡ tc.id)
  unfolding execute_call
  execute_call-ok tc w = executed-ok tc (Tool.lookup tc.tool_name A.registry) w

  -- However the tools end, the calls of an answer give one result each, in order, under their ids.
  pub execute_calls-ids :
      (calls : List ToolCall) (w : World Db)
      → (rs : List ToolResult) × ((execute_calls A calls w).0 ≡ ok rs)
        × (map (λ (r : ToolResult). r.tool_call_id) rs ≡ map (λ (c : ToolCall). c.id) calls)
  unfolding execute_calls pure
  execute_calls-ids [] w = ([], refl, refl)
  execute_calls-ids (tc ∷ calls) w =
      let (r, ran, id) = execute_call-ok tc w in
      let (rs, rest, ids) = execute_calls-ids calls (execute_call A tc w).1 in
      (
        r ∷ rs,
        ap (λ x. x.0)
            (bind-ok _ (execute_call A tc) w ran ∙ bind-ok _ (execute_calls A calls) _ rest),
        ap₂ (◌∷◌) id ids,
      )

  -- The messages that are added carry the ids of the results, in order.
  pub add_results-ids :
      (s : Session) (rs : List ToolResult)
      → Ensures
          (λ ms.
            map (λ (m : Message). m.tool_call_id) ms
            ≡ map (λ (r : ToolResult). some r.tool_call_id) rs)
          (add_results A s rs)
  unfolding add_results
  add_results-ids s [] = Ensures-pure [] refl
  add_results-ids s (r ∷ rs) = Ensures-then _ _ _ λ content. Ensures-then _ _ _ λ time.
      Ensures-then _ _ _ λ _.
        Ensures-bind _ _ _ (add_results-ids s rs)
          λ ms ids. Ensures-pure _ (ap (◌∷◌ (some r.tool_call_id)) ids)
