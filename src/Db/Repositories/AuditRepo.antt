-- ===== src/Db/Repositories/AuditRepo.antt =====
-- agent_sdk/db/repositories/audit_repo.py
use agent_sdk.Prelude.{
  ℕ, String, Option, none, some, List, [], ◌∷◌, ◌++◌, map, true, str_eq, if◌then◌else◌,
}
use agent_sdk.Prelude.Dict.{Dict, keys, values}
use agent_sdk.Db.Sql.{Value, int, str, Row, Cond, eq, ge, desc, Statement}
use agent_sdk.Db.Backend.{Backend}
use agent_sdk.Db.Exec.{Exec, pure, ◌>>=◌, ◌>>◌, uuid4, now, execute, fetch_all}
use agent_sdk.Isolation.Scope.{get_user_scope}
use agent_sdk.Db.Repositories.SessionRepo.{or_else, by}
use agent_sdk.Db.Repositories.MemoryRepo.{nullable}

-- The condition and the parameter of a filter that is given.
abbrev pub filter : (String → Cond) → String → Option String → List (Cond × Value)
filter c k none = []
filter c k (some s) = if str_eq s "" then [] else (c k, str s) ∷ []

abbrev pub entry_row : (id time user_id : String) → Option String → String → String → Dict Value
entry_row id time user_id session_id action details =
    ("id", str id)
    ∷ ("timestamp", str time)
    ∷ ("user_id", str user_id)
    ∷ ("session_id", nullable session_id)
    ∷ ("action", str action)
    ∷ ("details", str details)
    ∷ []

module _ {Db : Type 0} (E : Backend Db) where
  unfoldable pub create : String → Option String → Option String → Exec Db (Dict Value)
  create action details session_id = do
    user_id ← get_user_scope
    entry_id ← uuid4 E
    time ← now E
    let row = entry_row entry_id time user_id session_id action (or_else details "{}")
    execute E (Statement.insert "audit_log" (keys row)) (values row)
    pure row

  -- `user_id or get_user_scope()`
  unfoldable pub asked : Option String → Exec Db String
  asked none = get_user_scope
  asked (some u) = if str_eq u "" then get_user_scope else pure u

  unfoldable pub query : (user_id action since : Option String) → ℕ → Exec Db (List Row)
  query user_id action since limit = do
    uid ← asked user_id
    let ws = (eq "user_id", str uid) ∷ (filter eq "action" action ++ filter ge "timestamp" since)
    fetch_all E
        (Statement.select "audit_log" ("*" ∷ []) (map (λ p. p.0) ws) (by "timestamp" desc) true)
        (map (λ p. p.1) ws ++ int limit ∷ [])
