-- ===== src/Persistence/SessionStore.antt =====
-- agent_sdk/persistence/session_store.py: `SessionStore`. Its `user_id` arguments are not read.
pub mod Owner
pub mod Tests
use agent_sdk.Prelude.{ℕ, String, Option, none, some, List, [], ◌∷◌}
use agent_sdk.Types.{SessionStatus, archived, session_not_found, other}
use agent_sdk.Db.Sql.{Row}
use agent_sdk.Db.Backend.{Backend}
use agent_sdk.Db.Exec.{Exec, pure, raise, ◌>>=◌, ◌>>◌}
use agent_sdk.Db.Repositories.SessionRepo
use agent_sdk.Core.Session
use agent_sdk.Core.Session.{Session, status_value}

module _ {Db : Type 0} (E : Backend Db) where
  created : Option Row → Exec Db Session
  created none = raise (other "TypeError")
  created (some r) = Session.from_row r

  pub create : String → Option String → Exec Db Session
  unfolding created
  create agent_name metadata = do row ← SessionRepo.create E agent_name metadata none; created row

  loaded : Option Row → Exec Db Session
  loaded none = raise session_not_found
  loaded (some r) = Session.from_row r

  unfoldable pub load : String → Exec Db Session
  unfolding loaded
  load session_id = do row ← SessionRepo.get_by_id E session_id; loaded row

  from_rows : List Row → Exec Db (List Session)
  from_rows [] = pure []
  from_rows (r ∷ rs) = do s ← Session.from_row r; rest ← from_rows rs; pure (s ∷ rest)

  -- `status.value if status else None`
  abbrev status_text : Option SessionStatus → Option String
  status_text none = none
  status_text (some s) = some (status_value s)

  pub list_sessions : Option SessionStatus → ℕ → Exec Db (List Session)
  unfolding from_rows
  list_sessions status limit = do
    rows ← SessionRepo.list_by_user E (status_text status) limit
    from_rows rows

  pub update_status : String → SessionStatus → Exec Db (Unit {0})
  update_status session_id status = SessionRepo.update_status E session_id (status_value status)

  pub archive : String → Exec Db (Unit {0})
  archive session_id = SessionRepo.update_status E session_id (status_value SessionStatus.archived)

  pub delete : String → Exec Db (Unit {0})
  delete session_id = SessionRepo.delete E session_id
