-- ===== src/Db/Repositories/AgentRegistryRepo.antt =====
-- agent_sdk/db/repositories/agent_registry_repo.py. `rstrip` is str.rstrip.
use agent_sdk.Prelude.{String, false, Option, none, List, [], ◌∷◌}
use Prim.Native.String
use agent_sdk.Prelude.Dict.{Dict, keys, values}
use agent_sdk.Db.Sql.{Value, str, Row, eq, asc, Statement}
use agent_sdk.Db.Backend.{Backend}
use agent_sdk.Db.Exec.{Exec, ◌>>=◌, ◌>>◌, now, execute, fetch_one, fetch_all}
use agent_sdk.Db.Repositories.SessionRepo.{by, or_else}

abbrev pub agent_row :
    (name description base_url tools version health_url time : String) → Dict Value
agent_row name description base_url tools version health_url time =
    ("name", str name)
    ∷ ("description", str description)
    ∷ ("base_url", str base_url)
    ∷ ("tools", str tools)
    ∷ ("version", str version)
    ∷ ("health_url", str health_url)
    ∷ ("registered_at", str time)
    ∷ ("last_seen_at", str time)
    ∷ []

abbrev pub updated_columns : List String
updated_columns =
    "description" ∷ "base_url" ∷ "tools" ∷ "version" ∷ "health_url" ∷ "last_seen_at" ∷ []

module _ {Db : Type 0} (E : Backend Db) (rstrip : (text chars : String) → String) where
  unfoldable pub get_by_name : String → Exec Db (Option Row)
  get_by_name name =
      fetch_one E (Statement.select "agent_registry" ("*" ∷ []) (eq "name" ∷ []) none false)
        (str name ∷ [])

  -- `health_url or f"{base_url.rstrip('/')}/health"`
  abbrev pub health_of : Option String → String → String
  health_of health_url base_url = or_else health_url (String.◌++◌ (rstrip base_url "/") "/health")

  unfoldable pub register :
      (name description base_url : String)
      → Option String
      → String
      → Option String
      → Exec Db (Option Row)
  register name description base_url tools version health_url = do
    time ← now E
    let row =
        agent_row name description base_url (or_else tools "[]") version
          (health_of health_url base_url) time
    execute E (Statement.upsert "agent_registry" (keys row) ("name" ∷ []) updated_columns)
        (values row)
    get_by_name name

  unfoldable pub deregister : String → Exec Db (Unit {0})
  deregister name = execute E (Statement.delete "agent_registry" (eq "name" ∷ [])) (str name ∷ [])

  unfoldable pub list_all : Exec Db (List Row)
  list_all = fetch_all E (Statement.select "agent_registry" ("*" ∷ []) [] (by "name" asc) false) []

  unfoldable pub update_last_seen : String → Exec Db (Unit {0})
  update_last_seen name = do
    time ← now E
    execute E (Statement.update "agent_registry" ("last_seen_at" ∷ []) (eq "name" ∷ []))
        (str time ∷ str name ∷ [])
