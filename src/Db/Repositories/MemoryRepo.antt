-- ===== src/Db/Repositories/MemoryRepo.antt =====
-- agent_sdk/db/repositories/memory_repo.py, without `search`.
use agent_sdk.Prelude.{ℕ, String, Option, none, some, List, [], ◌∷◌}
use agent_sdk.Prelude.Dict
use agent_sdk.Prelude.Dict.{Dict}
use agent_sdk.Db.Sql.{Value, null, str, Row, desc}
use agent_sdk.Db.Backend.{Backend}
use agent_sdk.Db.Exec.{Exec, pure, ◌>>=◌, ◌>>◌, uuid4, now, execute_built, fetch_all_built}
use agent_sdk.Isolation.Filter
use agent_sdk.Db.Repositories.SessionRepo.{or_else, if_given, by}

-- None is NULL.
abbrev pub nullable : Option String → Value
nullable none = null
nullable (some s) = str s

module _ {Db : Type 0} (E : Backend Db) where
  unfoldable pub create :
      String → String → String → Option String → Option String → Exec Db (Dict Value)
  create key value memory_type session_id tags = do
    mem_id ← uuid4 E
    time ← now E
    let row =
        ("id", str mem_id)
        ∷ ("session_id", nullable session_id)
        ∷ ("key", str key)
        ∷ ("value", str value)
        ∷ ("memory_type", str memory_type)
        ∷ ("tags", str (or_else tags "[]"))
        ∷ ("created_at", str time)
        ∷ []
    execute_built E (Filter.insert "memory" row)
    pure (Dict.update (("id", str mem_id) ∷ []) row)

  unfoldable pub get_by_user : Option String → ℕ → Exec Db (List Row)
  get_by_user memory_type limit = fetch_all_built E (
      Filter.select "memory" ("*" ∷ []) (some (if_given "memory_type" memory_type))
        (by "created_at" desc) (some limit))

  unfoldable pub get_by_session : String → Option String → ℕ → Exec Db (List Row)
  get_by_session session_id memory_type limit = fetch_all_built E (
      Filter.select "memory" ("*" ∷ [])
        (some (("session_id", str session_id) ∷ if_given "memory_type" memory_type))
        (by "created_at" desc) (some limit))

  unfoldable pub delete : String → Exec Db (Unit {0})
  delete memory_id = execute_built E (Filter.delete "memory" (some (("id", str memory_id) ∷ [])))
