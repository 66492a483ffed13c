-- ===== src/Db/Repositories/SessionRepo.antt =====
-- agent_sdk/db/repositories/session_repo.py
use agent_sdk.Prelude.{ℕ, String, Option, none, some, List, [], ◌∷◌, str_eq, if◌then◌else◌}
use agent_sdk.Prelude.Dict.{Dict}
use agent_sdk.Db.Sql.{Value, str, Row, Order, Direction, desc}
use agent_sdk.Db.Backend.{Backend}
use agent_sdk.Db.Exec.{
  Exec, pure, ◌>>=◌, ◌>>◌, uuid4, now, execute_built, fetch_all_built, fetch_one_built,
}
use agent_sdk.Isolation.Filter

-- `v or default` for an optional text: an empty text counts as none.
unfoldable pub or_else : Option String → String → String
or_else none d = d
or_else (some s) d = if str_eq s "" then d else s

-- `{"k": v} if v else {}`
unfoldable pub if_given : String → Option String → Dict Value
if_given k none = []
if_given k (some s) = if str_eq s "" then [] else (k, str s) ∷ []

abbrev pub by : String → Direction → Option Order
by column direction = some (record { column = column; direction = direction })

module _ {Db : Type 0} (E : Backend Db) where
  unfoldable pub get_by_id : String → Exec Db (Option Row)
  get_by_id session_id =
      fetch_one_built E
        (Filter.select "sessions" ("*" ∷ []) (some (("id", str session_id) ∷ [])) none none)

  -- The new id is `session_id or uuid4().hex`.
  unfoldable pub new_id : Option String → Exec Db String
  new_id none = uuid4 E
  new_id (some s) = if str_eq s "" then uuid4 E else pure s

  unfoldable pub create : String → Option String → Option String → Exec Db (Option Row)
  create agent_name metadata session_id = do
    sid ← new_id session_id
    time ← now E
    execute_built E (
        Filter.insert "sessions" (
          ("id", str sid)
          ∷ ("agent_name", str agent_name)
          ∷ ("status", str "active")
          ∷ ("metadata", str (or_else metadata "{}"))
          ∷ ("created_at", str time)
          ∷ ("updated_at", str time)
          ∷ []))
    get_by_id sid

  unfoldable pub list_by_user : Option String → ℕ → Exec Db (List Row)
  list_by_user status limit = fetch_all_built E (
      Filter.select "sessions" ("*" ∷ []) (some (if_given "status" status)) (by "created_at" desc)
        (some limit))

  unfoldable pub update_status : String → String → Exec Db (Unit {0})
  update_status session_id status = do
    time ← now E
    execute_built E (
        Filter.update "sessions" (("status", str status) ∷ ("updated_at", str time) ∷ [])
          (some (("id", str session_id) ∷ [])))

  unfoldable pub delete : String → Exec Db (Unit {0})
  delete session_id =
      execute_built E (Filter.delete "sessions" (some (("id", str session_id) ∷ [])))
