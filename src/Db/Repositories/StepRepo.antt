-- ===== src/Db/Repositories/StepRepo.antt =====
-- agent_sdk/db/repositories/step_repo.py
pub mod Fields
use agent_sdk.Prelude.{ℕ, String, Option, none, some, List, [], ◌∷◌, str_eq, if◌then◌else◌}
use agent_sdk.Prelude.Dict
use agent_sdk.Prelude.Dict.{Dict, get}
use agent_sdk.Db.Sql.{Value, null, int, str, Row, asc, desc, keep}
use agent_sdk.Db.Backend.{Backend}
use agent_sdk.Db.Exec.{
  Exec, pure, ◌>>=◌, ◌>>◌, uuid4, now, execute_built, fetch_all_built, fetch_one_built,
}
use agent_sdk.Isolation.Filter
use agent_sdk.Db.Repositories.SessionRepo.{or_else, by, new_id}
use agent_sdk.Prelude.{Bool, false}

-- The optional fields that `update_status` sets.
pub record StepFields : Type 0 where
  pub output_message : Option String
  pub tool_calls : Option String
  pub tool_results : Option String
  pub error : Option String

-- `if v is not None: set_[k] = v`
abbrev pub put_some : String → Option String → Dict Value → Dict Value
put_some k none d = d
put_some k (some v) d = Dict.put k (str v) d

-- `set_` of `update_status`, in the order of its assignments.
unfoldable pub status_fields : String → String → StepFields → Dict Value
status_fields status time f =
    let base = ("status", str status) ∷ [] in
    let done =
      if str_eq status "completed" then Dict.put "completed_at" (str time) base else base in
    let begun = if str_eq status "running" then Dict.put "started_at" (str time) done else done in
    put_some "error" f.error (
      put_some "tool_results" f.tool_results
        (put_some "tool_calls" f.tool_calls (put_some "output_message" f.output_message begun)))

-- `r.get("status") == "completed"`
abbrev is_completed : Row → Bool
is_completed r = elim (get "status" r) [ some (str s) ↦ str_eq s "completed" | _ ↦ false ]

abbrev pub summary_columns : List String
summary_columns =
    "id" ∷ "session_id" ∷ "step_number" ∷ "status" ∷ "idempotency_key" ∷ "started_at"
    ∷ "completed_at" ∷ []

module _ {Db : Type 0} (E : Backend Db) where
  unfoldable pub get_by_id : String → Exec Db (Option Row)
  get_by_id step_id =
      fetch_one_built E
        (Filter.select "steps" ("*" ∷ []) (some (("id", str step_id) ∷ [])) none none)

  unfoldable pub create : String → ℕ → Option String → Option String → Exec Db (Option Row)
  create session_id step_number idempotency_key input_messages = do
    step_id ← uuid4 E
    time ← now E
    idem_key ← new_id E idempotency_key
    execute_built E (
        Filter.insert "steps" (
          ("id", str step_id)
          ∷ ("session_id", str session_id)
          ∷ ("step_number", int step_number)
          ∷ ("status", str "pending")
          ∷ ("input_messages", str (or_else input_messages "[]"))
          ∷ ("output_message", null)
          ∷ ("tool_calls", str "[]")
          ∷ ("tool_results", str "[]")
          ∷ ("checkpoint", null)
          ∷ ("idempotency_key", str idem_key)
          ∷ ("error", null)
          ∷ ("started_at", str time)
          ∷ ("completed_at", null)
          ∷ []))
    get_by_id step_id

  unfoldable pub get_by_session : String → Exec Db (List Row)
  get_by_session session_id = fetch_all_built E (
      Filter.select "steps" ("*" ∷ []) (some (("session_id", str session_id) ∷ []))
        (by "step_number" asc) none)

  unfoldable pub get_latest_by_session : String → Exec Db (Option Row)
  get_latest_by_session session_id = fetch_one_built E (
      Filter.select "steps" ("*" ∷ []) (some (("session_id", str session_id) ∷ []))
        (by "step_number" desc) (some 1))

  unfoldable pub update_status : String → String → StepFields → Exec Db (Unit {0})
  update_status step_id status fields = do
    time ← now E
    execute_built E
        (Filter.update "steps" (status_fields status time fields) (some (("id", str step_id) ∷ [])))

  unfoldable pub save_checkpoint : String → String → Exec Db (Unit {0})
  save_checkpoint step_id checkpoint = execute_built E (
      Filter.update "steps" (("checkpoint", str checkpoint) ∷ []) (some (("id", str step_id) ∷ [])))

  unfoldable pub list_checkpoints : String → Exec Db (List Row)
  list_checkpoints session_id = do
    rows ← fetch_all_built E (
        Filter.select "steps" summary_columns (some (("session_id", str session_id) ∷ []))
          (by "step_number" asc) none)
    pure (keep is_completed rows)
