-- ===== src/Durability/Recovery.antt =====
-- agent_sdk/durability/recovery.py: `RecoveryManager.auto_resume`.
use agent_sdk.Prelude.{true, false, String, Option, none, some, [], ◌∷◌}
use agent_sdk.Db.Sql.{str, Row, eq, Statement}
use agent_sdk.Db.Exec.{Exec, pure, fetch_one, ◌>>=◌}
use agent_sdk.Core.Session.{text_at, lift}
use agent_sdk.Core.Agent.{run}
use agent_sdk.Core.Agent.Loop.{Agent, AgentResult}

module _ {Db : Type 0} (A : Agent Db) where
  abbrev pub owner_row : String → Exec Db (Option Row)
  owner_row session_id =
      fetch_one A.backend (Statement.select "sessions" ("user_id" ∷ []) (eq "id" ∷ []) none false)
        (str session_id ∷ [])

  -- The run for the user that the row names. It has no input.
  resumed : String → Option Row → Exec Db (Option AgentResult)
  resumed session_id none = pure none
  resumed session_id (some r) = do
    user_id ← lift (text_at "user_id" r)
    res ← run A user_id [] (some session_id) none true
    pure (some res)

  pub auto_resume : String → Exec Db (Option AgentResult)
  unfolding resumed
  auto_resume session_id = do row ← owner_row session_id; resumed session_id row
