-- ===== src/Db/Repositories/KnowledgeRepo.antt =====
-- agent_sdk/db/repositories/knowledge_repo.py, without `search` and `list_namespaces`.
use agent_sdk.Prelude.{String, false, Option, none, List, [], ◌∷◌}
use agent_sdk.Prelude.Dict.{Dict, keys, values}
use agent_sdk.Db.Sql.{Value, str, Row, eq, Statement}
use agent_sdk.Db.Backend.{Backend}
use agent_sdk.Db.Exec.{Exec, ◌>>=◌, now, execute, fetch_one}
use agent_sdk.Isolation.Scope.{get_user_scope}
use agent_sdk.Db.Repositories.SessionRepo.{or_else}

abbrev pub entry_row : (user_id namespace key content metadata time : String) → Dict Value
entry_row user_id namespace key content metadata time =
    ("user_id", str user_id)
    ∷ ("namespace", str namespace)
    ∷ ("key", str key)
    ∷ ("content", str content)
    ∷ ("metadata", str metadata)
    ∷ ("created_at", str time)
    ∷ ("updated_at", str time)
    ∷ []

abbrev pub key_columns : List String
key_columns = "user_id" ∷ "namespace" ∷ "key" ∷ []

abbrev pub updated_columns : List String
updated_columns = "content" ∷ "metadata" ∷ "updated_at" ∷ []

module _ {Db : Type 0} (E : Backend Db) where
  -- Insert or replace.
  unfoldable pub put : (namespace key content : String) → Option String → Exec Db (Unit {0})
  put namespace key content metadata = do
    user_id ← get_user_scope
    time ← now E
    let row = entry_row user_id namespace key content (or_else metadata "{}") time
    execute E (Statement.upsert "knowledge" (keys row) key_columns updated_columns) (values row)

  unfoldable pub get : (namespace key : String) → Exec Db (Option Row)
  get namespace key = do
    user_id ← get_user_scope
    fetch_one E
        (Statement.select "knowledge" ("*" ∷ []) (eq "user_id" ∷ eq "namespace" ∷ eq "key" ∷ [])
          none false)
        (str user_id ∷ str namespace ∷ str key ∷ [])

  unfoldable pub delete : (namespace key : String) → Exec Db (Unit {0})
  delete namespace key = do
    user_id ← get_user_scope
    execute E (Statement.delete "knowledge" (eq "user_id" ∷ eq "namespace" ∷ eq "key" ∷ []))
        (str user_id ∷ str namespace ∷ str key ∷ [])
