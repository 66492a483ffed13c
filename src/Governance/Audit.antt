-- ===== src/Governance/Audit.antt =====
-- agent_sdk/governance/audit.py. Of a run context, the session counts. The details are the text
-- that json.dumps makes of them, json.loads is a parameter, and a timestamp stays its text.
pub mod Owned
pub mod Tests
use agent_sdk.Prelude.{ℕ, String, Option, none, some, List, [], ◌∷◌}
use agent_sdk.Prelude.Dict.{get}
use agent_sdk.Types.{other, Result, ok, err}
use agent_sdk.Db.Sql.{Row, str}
use agent_sdk.Db.Backend.{Backend}
use agent_sdk.Db.Exec.{Exec, pure, ◌>>=◌, ◌>>◌}
use agent_sdk.Db.Repositories.AuditRepo
use agent_sdk.Core.Session.{Session, lift, text_at}
use agent_sdk.Persistence.Memory.{optional_text}

pub record AuditEntry : Type 0 where
  pub id : String
  pub timestamp : String
  pub user_id : String
  pub session_id : Option String
  pub action : String
  pub details : String

-- What `json.loads` makes of a text: nothing, a dict, or a value that is no dict.
pub data LoadedDetails : Type 0 where
  invalid another : LoadedDetails
  dict : String → LoadedDetails

abbrev pub details_text : LoadedDetails → Result String
details_text invalid = ok "{}"
details_text another = err (other "ValidationError")
details_text (dict t) = ok t

module _ {Db : Type 0} (E : Backend Db) (loads : String → LoadedDetails) where
  unfoldable pub log : Session → String → Option String → Exec Db (Unit {0})
  log session action details = do AuditRepo.create E action details (some session.id); pure tt

  -- `r.get("details", {})`, and json.loads of a text.
  unfoldable pub details_at : Row → Result String
  details_at r = elim (get "details" r) [
    | none ↦ ok "{}"
    | some (str t) ↦ details_text (loads t)
    | some _ ↦ err (other "ValidationError")
  ]

  unfoldable pub row_to_entry : Row → Exec Db AuditEntry
  row_to_entry r = do
    details ← lift (details_at r)
    id ← lift (text_at "id" r)
    timestamp ← lift (text_at "timestamp" r)
    user_id ← lift (text_at "user_id" r)
    session_id ← lift (optional_text "session_id" r)
    action ← lift (text_at "action" r)
    pure (record {
      id = id;
      timestamp = timestamp;
      user_id = user_id;
      session_id = session_id;
      action = action;
      details = details;
    })

  unfoldable pub to_entries : List Row → Exec Db (List AuditEntry)
  to_entries [] = pure []
  to_entries (r ∷ rs) = do e ← row_to_entry r; es ← to_entries rs; pure (e ∷ es)

  unfoldable pub query : (user_id action since : Option String) → ℕ → Exec Db (List AuditEntry)
  query user_id action since limit = do
    rows ← AuditRepo.query E user_id action since limit
    to_entries rows
