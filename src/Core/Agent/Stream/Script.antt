-- ===== src/Core/Agent/Stream/Script.antt =====
-- The order of the events of a stream, apart from the database.
use agent_sdk.Prelude.{ℕ, suc, String, ◌≡◌, ◌≢◌, Option, none, some, List, [], ◌∷◌, ◌++◌, map}
use agent_sdk.Types.{Error, Result, ok, err}
use agent_sdk.Core.Message.{ToolCall, ToolResult, Message}
use agent_sdk.Core.Agent.Stream.{Loaded, Collected, collect}
use agent_sdk.Core.Agent.Stream.Yield.{StreamEvent, step_start, tool_result, step_end, done}

module _ (loads : String → Loaded) where
  abbrev next : Result Collected → (Collected → Result Collected) → Result Collected
  next (ok c) f = f c
  next (err e) f = err e

  -- The text and the tool calls that the events of the model come to.
  abbrev pub transcript : List StreamEvent → Collected → Result Collected
  transcript [] c = ok c
  transcript (e ∷ es) c = next (collect loads e c) (transcript es)

module _ (chat_stream : ℕ → List Message → List StreamEvent × Option Error)
    (loads : String → Loaded) where
  -- In round `n` the model's stream on `sent` ended without an exception, with this text and these
  -- calls.
  pub record Heard (n : ℕ) (sent : List Message) (c : Collected) : Type 0 where
    pub ends : (chat_stream n sent).1 ≡ none
    pub comes_to :
        transcript loads (chat_stream n sent).0 (record { content = ""; calls = [] }) ≡ ok c

  -- `Script n left es`: from round `n` on, with at most `left` rounds, a stream yields `es`.
  pub data Script : ℕ → ℕ → List StreamEvent → Type 0 where
    exhausted : (n : ℕ) → Script n 0 (done (some "") (some "max_steps_reached") ∷ [])
    answered :
        (n left : ℕ) (sent : List Message) (c : Collected)
        → Heard n sent c
        → c.calls ≡ []
        → Script n (suc left) (
            step_start n
            ∷ ((chat_stream n sent).0 ++ (step_end n ∷ done (some c.content) none ∷ [])))
    used_tools :
        (n left : ℕ) (sent : List Message) (c : Collected) (results : List ToolResult)
        (es : List StreamEvent)
        → Heard n sent c
        → c.calls ≢ []
        → map (λ (r : ToolResult). r.tool_call_id) results ≡ map (λ (k : ToolCall). k.id) c.calls
        → Script (suc n) left es
        → Script n (suc left) (
            step_start n
            ∷ ((chat_stream n sent).0 ++ (map tool_result results ++ (step_end n ∷ es))))
