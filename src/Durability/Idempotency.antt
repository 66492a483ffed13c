-- ===== src/Durability/Idempotency.antt =====
-- agent_sdk/durability/idempotency.py: `IdempotencyTracker`. json.loads of a stored result is a
-- parameter; a result is its JSON text.
pub mod FirstWins
pub mod Tests
use agent_sdk.Prelude.{String, false, Option, none, some, List, [], ◌∷◌}
use Prim.Native.String
use agent_sdk.Prelude.Dict.{Dict, get, keys, values}
use agent_sdk.Types.{Error, other, Result, ok, err}
use agent_sdk.Db.Sql.{Value, null, int, str, Row, eq, Statement}
use agent_sdk.Db.Backend.{Backend}
use agent_sdk.Db.Exec.{Exec, pure, raise, ◌>>=◌, ◌>>◌, execute, fetch_one}
use agent_sdk.Isolation.Scope.{get_user_scope}

-- A value to be recorded: a dict, or another one, both as their JSON texts.
pub data Outcome : Type 0 where
  dict plain : String → Outcome

-- `result if isinstance(result, dict) else {"output": result}`
abbrev pub result_json : Outcome → String
result_json (dict t) = t
result_json (plain t) = String.◌++◌ "{\"output\": " (String.◌++◌ t "}")

abbrev pub key_row : (key session_id user_id result : String) → Dict Value
key_row key session_id user_id result =
    ("key", str key)
    ∷ ("session_id", str session_id)
    ∷ ("user_id", str user_id)
    ∷ ("result", str result)
    ∷ []

-- What `check` finds: the decoded JSON, or the text itself under "output".
pub data Cached : Type 0 where
  decoded output : String → Cached

module _ (loads : String → Option String) where
  abbrev pub cached_text : String → Cached
  cached_text t = elim (loads t) [ none ↦ output t | some v ↦ decoded v ]

  -- The row that is found, whose result is a text.
  unfoldable pub cached : Option Row → Result (Option Cached)
  cached none = ok none
  cached (some r) = elim (get "result" r) [
    | some (str t) ↦ ok (some (cached_text t))
    | _ ↦ err (other "KeyError")
  ]

  module _ {Db : Type 0} (E : Backend Db) where
    unfoldable pub record_ : (key : String) → Outcome → (session_id : String) → Exec Db (Unit {0})
    record_ key result session_id = do
      user_id ← get_user_scope
      let row = key_row key session_id user_id (result_json result)
      execute E (Statement.insert_or_ignore "idempotency_keys" (keys row)) (values row)

    unfoldable pub check : String → Exec Db (Option Cached)
    check key = do
      user_id ← get_user_scope
      row ←
          fetch_one E
            (Statement.select "idempotency_keys" ("result" ∷ []) (eq "key" ∷ eq "user_id" ∷ []) none
              false)
            (str key ∷ str user_id ∷ [])
      λ w. (cached row, w)

    unfoldable pub clear : String → Exec Db (Unit {0})
    clear session_id = do
      user_id ← get_user_scope
      execute E (Statement.delete "idempotency_keys" (eq "session_id" ∷ eq "user_id" ∷ []))
          (str session_id ∷ str user_id ∷ [])
