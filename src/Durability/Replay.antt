-- ===== src/Durability/Replay.antt =====
-- agent_sdk/durability/replay.py: `ReplayEngine`. The text `str(tr.output)` is a parameter. A step
-- and a message that are dumped to JSON are kept as they are.
pub mod Order
use agent_sdk.Prelude.{ℕ, zero, suc, ◌+◌, String, Option, none, some, List, [], ◌∷◌, ◌++◌, map}
use agent_sdk.Types.{replay_error}
use agent_sdk.Db.Backend.{Backend}
use agent_sdk.Db.Exec.{Exec, pure, ◌>>=◌}
use agent_sdk.Core.Message.{ToolResult, Message, Step}
use agent_sdk.Durability.Checkpoint.{Codec, rewrap, load, load_latest}

-- A message of the rebuilt context: one that the model sent, or a tool's output with its id.
pub data PendingMessage : Type 0 where
  sent : Message → PendingMessage
  tool : (content tool_call_id : String) → PendingMessage

pub record ResumePoint : Type 0 where
  pub session_id : String
  pub resume_step : ℕ
  pub replayed_steps : List Step
  pub pending_messages : List PendingMessage

abbrev pub kept : Option Step → List Step → List Step
kept none steps = steps
kept (some s) steps = s ∷ steps

module _ {Db : Type 0} (C : Codec) (E : Backend Db) (show : Option String → String) where
  -- The loop of `replay_to`, from step `sn` on, with `left` steps to go.
  pub replay : String → (left sn : ℕ) → Exec Db (List Step)
  replay session_id zero sn = pure []
  replay session_id (suc left) sn = do
    step ← load C E session_id sn
    rest ← replay session_id left (suc sn)
    pure (kept step rest)

  pub replay_to : String → ℕ → Exec Db (List Step)
  unfolding replay
  replay_to session_id step_number = rewrap replay_error (replay session_id step_number 1)

  abbrev output_of : Option Message → List PendingMessage
  output_of none = []
  output_of (some m) = sent m ∷ []

  messages_of : List Step → List PendingMessage
  messages_of [] = []
  messages_of (s ∷ steps) =
      output_of s.output_message
      ++ (map (λ (r : ToolResult). tool (show r.output) r.tool_call_id) s.tool_results
          ++ messages_of steps)

  resume_at : String → Option Step → Exec Db ResumePoint
  unfolding replay_to messages_of
  resume_at session_id none = pure (record {
    session_id = session_id;
    resume_step = 1;
    replayed_steps = [];
    pending_messages = [];
  })
  resume_at session_id (some latest) = do
    replayed ← replay_to session_id latest.step_number
    pure (record {
      session_id = session_id;
      resume_step = latest.step_number + 1;
      replayed_steps = replayed;
      pending_messages = messages_of replayed;
    })

  pub resume_from : String → Exec Db ResumePoint
  unfolding resume_at
  resume_from session_id =
      rewrap replay_error (do latest ← load_latest C E session_id; resume_at session_id latest)
