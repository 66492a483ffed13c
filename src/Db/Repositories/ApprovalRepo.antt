-- ===== src/Db/Repositories/ApprovalRepo.antt =====
-- agent_sdk/db/repositories/approval_repo.py
use agent_sdk.Prelude.{ℕ, String, Option, none, some, List, [], ◌∷◌}
use agent_sdk.Db.Sql.{null, int, str, Row, asc}
use agent_sdk.Db.Backend.{Backend}
use agent_sdk.Db.Exec.{
  Exec, ◌>>=◌, ◌>>◌, uuid4, now, execute_built, fetch_all_built, fetch_one_built,
}
use agent_sdk.Isolation.Filter
use agent_sdk.Db.Repositories.SessionRepo.{by}

module _ {Db : Type 0} (E : Backend Db) where
  unfoldable pub get_by_id : String → Exec Db (Option Row)
  get_by_id approval_id =
      fetch_one_built E
        (Filter.select "approvals" ("*" ∷ []) (some (("id", str approval_id) ∷ [])) none none)

  unfoldable pub create : String → ℕ → String → String → String → Exec Db (Option Row)
  create session_id step_number tool_name tool_arguments required_policy = do
    approval_id ← uuid4 E
    time ← now E
    execute_built E (
        Filter.insert "approvals" (
          ("id", str approval_id)
          ∷ ("session_id", str session_id)
          ∷ ("step_number", int step_number)
          ∷ ("tool_name", str tool_name)
          ∷ ("tool_arguments", str tool_arguments)
          ∷ ("required_policy", str required_policy)
          ∷ ("status", str "pending")
          ∷ ("requested_at", str time)
          ∷ ("resolved_at", null)
          ∷ ("resolved_by", null)
          ∷ ("reason", null)
          ∷ []))
    get_by_id approval_id

  unfoldable pub get_pending : Exec Db (List Row)
  get_pending = fetch_all_built E (
      Filter.select "approvals" ("*" ∷ []) (some (("status", str "pending") ∷ []))
        (by "requested_at" asc) none)

  unfoldable pub resolve : String → String → String → String → Exec Db (Unit {0})
  resolve approval_id status resolved_by reason = do
    time ← now E
    execute_built E (
        Filter.update "approvals"
          (("status", str status)
            ∷ ("resolved_at", str time)
            ∷ ("resolved_by", str resolved_by)
            ∷ ("reason", str reason)
            ∷ [])
          (some (("id", str approval_id) ∷ [])))

  unfoldable pub get_by_session : String → Exec Db (List Row)
  get_by_session session_id = fetch_all_built E (
      Filter.select "approvals" ("*" ∷ []) (some (("session_id", str session_id) ∷ []))
        (by "requested_at" asc) none)
