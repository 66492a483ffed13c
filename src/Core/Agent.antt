-- ===== src/Core/Agent.antt =====
-- agent_sdk/core/agent.py: `Agent.run`. The model, the tools' functions and the text of an
-- exception are parameters. The database is open (`initialize` has returned).
pub mod Loop
pub mod Runs
pub mod Totality
pub mod NotFound
pub mod Stream
pub mod Tests
use agent_sdk.Prelude.{
  ℕ, zero, suc, ◌+◌, String, Bool, true, false, Option, none, some, List, [], ◌∷◌, ◌++◌, ◌==◌,
  str_eq, if◌then◌else◌,
}
use agent_sdk.Prelude.Dict.{get}
use agent_sdk.Types.{
  SessionStatus, active, paused, archived, RunStatus, Error, other, session_not_found, Result, ok,
  err,
}
use agent_sdk.Db.Sql.{Value, int, Row}
use agent_sdk.Db.Exec.{Exec, pure, raise, ◌>>=◌, ◌>>◌}
use agent_sdk.Db.Repositories.SessionRepo
use agent_sdk.Db.Repositories.StepRepo
use agent_sdk.Isolation.Scope.{user_scope}
use agent_sdk.Core.Message.{Message}
use agent_sdk.Core.Session
use agent_sdk.Core.Session.{Session}
use Loop.{Agent, AgentResult, steps_loop}

module _ {Db : Type 0} (A : Agent Db) where
  -- `latest["step_number"]`, if there is a step.
  resume_point : Option Row → Exec Db (Option ℕ)
  resume_point none = pure none
  resume_point (some r) = elim (get "step_number" r) [
    | some (int n) ↦ pure (some n)
    | _ ↦ raise (other "KeyError")
  ]

  -- `if not row: raise SessionNotFoundError(…)`, and the session of the row.
  found : Option Row → Exec Db Session
  found none = raise session_not_found
  found (some r) = Session.from_row r

  load : String → Exec Db Session
  unfolding found
  load session_id = do row ← SessionRepo.get_by_id A.backend session_id; found row

  wake : Session → Exec Db Session
  wake s = elim s.status [ SessionStatus.paused ↦ Session.resume A.backend s | _ ↦ pure s ]

  made : Option Row → Exec Db Session
  made none = raise (other "TypeError")
  made (some r) = Session.from_row r

  create : Exec Db (Session × Option ℕ)
  unfolding made
  create = do row ← SessionRepo.create A.backend A.name none none; s ← made row; pure (s, none)

  -- Create or load the session; `resume` also finds the last step.
  open_session : Option String → Bool → Exec Db (Session × Option ℕ)
  open_session none resume = create
  open_session (some session_id) true = if str_eq session_id "" then create else do
    loaded ← load session_id
    s ← wake loaded
    latest ← StepRepo.get_latest_by_session A.backend session_id
    resumed ← resume_point latest
    pure (s, resumed)
  open_session (some session_id) false =
      if str_eq session_id "" then create else do s ← load session_id; pure (s, none)

  add_all : Session → List Message → Exec Db (Unit {0})
  add_all s [] = pure tt
  add_all s (m ∷ ms) = do Session.add_message A.backend A.json s m; add_all s ms

  -- `max_steps or self.settings.max_steps`
  abbrev limit_of : Option ℕ → ℕ
  limit_of none = A.max_steps
  limit_of (some n) = if n == 0 then A.max_steps else n

  -- The body of the `try` in `run`. A text given as input is a list of one user message.
  run_in_scope : String → List Message → Option String → Option ℕ → Bool → Exec Db AgentResult
  unfolding resume_point load wake create open_session add_all
  run_in_scope user_id input session_id max_steps resume = do
    opened ← open_session session_id resume
    add_all opened.0 input
    steps_loop A user_id opened.0 opened.1 (A.instructions opened.0) (limit_of max_steps) 1 [] []

  pub run : String → List Message → Option String → Option ℕ → Bool → Exec Db AgentResult
  unfolding run_in_scope user_scope
  run user_id input session_id max_steps resume =
      user_scope user_id (run_in_scope user_id input session_id max_steps resume)
