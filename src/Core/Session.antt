-- ===== src/Core/Session.antt =====
-- agent_sdk/core/session.py. The JSON text of the metadata is not decoded.
use agent_sdk.Prelude.{ℕ, String, Option, none, some, List, str_eq, if◌then◌else◌}
use agent_sdk.Prelude.Dict.{get}
use agent_sdk.Types.{SessionStatus, other, Result, ok, err}
use agent_sdk.Db.Sql.{int, str, Row}
use agent_sdk.Db.Backend.{Backend}
use agent_sdk.Db.Exec.{Exec, pure, ◌>>=◌, ◌>>◌}
use agent_sdk.Db.Repositories.SessionRepo
use agent_sdk.Db.Repositories.StepRepo
use agent_sdk.Persistence.History
use agent_sdk.Persistence.History.{Json}
use agent_sdk.Core.Message.{Message}

pub record Session : Type 0 where
  pub id : String
  pub user_id : String
  pub agent_name : String
  pub status : SessionStatus

unfoldable pub status_value : SessionStatus → String
status_value SessionStatus.active = "active"
status_value SessionStatus.paused = "paused"
status_value SessionStatus.completed = "completed"
status_value SessionStatus.archived = "archived"

-- `SessionStatus(value)`
unfoldable pub parse_status : String → Result SessionStatus
parse_status s =
    if str_eq s "active"
    then ok SessionStatus.active
    else if str_eq s "paused"
    then ok SessionStatus.paused
    else if str_eq s "completed"
    then ok SessionStatus.completed
    else if str_eq s "archived"
    then ok SessionStatus.archived
    else err (other "ValueError")

-- `row[k]`, for a text column.
unfoldable pub text_at : String → Row → Result String
text_at k r = elim (get k r) [ some (str s) ↦ ok s | _ ↦ err (other "KeyError") ]

-- `row[k]`, for an integer column.
unfoldable pub number_at : String → Row → Result ℕ
number_at k r = elim (get k r) [ some (int n) ↦ ok n | _ ↦ err (other "KeyError") ]

unfoldable pub status_at : Row → Result SessionStatus
status_at r = elim (get "status" r) [
  | none ↦ ok SessionStatus.active
  | some (str s) ↦ parse_status s
  | some _ ↦ err (other "ValueError")
]

module _ {Db : Type 0} where
  -- A pure function that may raise, as an action.
  unfoldable pub lift : {A : Type 0} → Result A → Exec Db A
  lift r w = (r, w)

  unfoldable pub from_row : Row → Exec Db Session
  unfolding lift status_at
  from_row r = do
    id ← lift (text_at "id" r)
    user_id ← lift (text_at "user_id" r)
    agent_name ← lift (text_at "agent_name" r)
    status ← lift (status_at r)
    pure (record { id = id; user_id = user_id; agent_name = agent_name; status = status })

module _ {Db : Type 0} (E : Backend Db) where
  unfoldable pub add_message : Json → Session → Message → Exec Db (Unit {0})
  add_message J s m = History.append J E s.id m

  unfoldable pub get_history : Json → Session → ℕ → Option String → Exec Db (List Message)
  get_history J s limit before = History.get_messages J E s.id limit before

  unfoldable pub get_steps : Session → Exec Db (List Row)
  get_steps s = StepRepo.get_by_session E s.id

  -- `pause`, `resume` and `archive`, each with its status.
  unfoldable pub set_status : SessionStatus → Session → Exec Db Session
  set_status status s = do
    SessionRepo.update_status E s.id (status_value status)
    pure (record s { status = status })

  unfoldable pub pause : Session → Exec Db Session
  unfolding set_status
  pause = set_status SessionStatus.paused

  unfoldable pub resume : Session → Exec Db Session
  unfolding set_status
  resume = set_status SessionStatus.active

  unfoldable pub archive : Session → Exec Db Session
  unfolding set_status
  archive = set_status SessionStatus.archived
