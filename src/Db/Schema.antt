-- ===== src/Db/Schema.antt =====
-- agent_sdk/db/migrations.py: `_MIGRATIONS`, the CREATE statements as trees. Every
-- CREATE has IF NOT EXISTS.
use agent_sdk.Prelude.{ℕ, String, List, [], ◌∷◌}

pub data ColumnType : Type 0 where
  text integer blob : ColumnType

-- `now` is DEFAULT (datetime('now')); `cascade` is REFERENCES … ON DELETE CASCADE.
pub data Constraint : Type 0 where
  primary not_null now : Constraint
  default : String → Constraint
  references cascade : (table column : String) → Constraint

pub record Column : Type 0 where
  pub name : String
  pub type : ColumnType
  pub constraints : List Constraint

pub data TableConstraint : Type 0 where
  unique primary_columns : List String → TableConstraint
  foreign : (column table target : String) → TableConstraint

pub data Create : Type 0 where
  table : String → List Column → List TableConstraint → Create
  index : (name table : String) → List String → Create

pub record Migration : Type 0 where
  pub version : ℕ
  pub description : String
  pub statements : List Create

-- The columns that occur in most tables.
abbrev column : String → ColumnType → List Constraint → Column
column name type constraints = record { name = name; type = type; constraints = constraints }

abbrev required : String → Column
required name = column name text (not_null ∷ [])

abbrev optional : String → Column
optional name = column name text []

abbrev defaulted : String → String → Column
defaulted name value = column name text (not_null ∷ default value ∷ [])

abbrev dated : String → Column
dated name = column name text (not_null ∷ now ∷ [])

abbrev key : String → Column
key name = column name text (primary ∷ [])

abbrev of_session : Column
of_session = column "session_id" text (not_null ∷ cascade "sessions" "id" ∷ [])

-- The table of `_ensure_schema_version_table`.
abbrev pub schema_version : Create
schema_version =
    table "schema_version"
      (column "version" integer (primary ∷ []) ∷ dated "applied_at" ∷ optional "description" ∷ [])
      []

unfoldable pub migrations : List Migration
migrations =
    record {
      version = 1;
      description = "Create sessions table";
      statements =
          table "sessions"
            (key "id"
              ∷ required "user_id"
              ∷ required "agent_name"
              ∷ defaulted "status" "active"
              ∷ defaulted "metadata" "{}"
              ∷ dated "created_at"
              ∷ dated "updated_at"
              ∷ [])
            []
          ∷ index "idx_sessions_user_id" "sessions" ("user_id" ∷ [])
          ∷ index "idx_sessions_status" "sessions" ("user_id" ∷ "status" ∷ [])
          ∷ [];
    }
    ∷ record {
      version = 2;
      description = "Create messages table";
      statements =
          table "messages"
            (key "id"
              ∷ of_session
              ∷ required "user_id"
              ∷ required "role"
              ∷ optional "content"
              ∷ optional "tool_calls"
              ∷ optional "tool_call_id"
              ∷ optional "name"
              ∷ defaulted "metadata" "{}"
              ∷ dated "timestamp"
              ∷ column "ordinal" integer (not_null ∷ [])
              ∷ [])
            []
          ∷ index "idx_messages_session" "messages" ("session_id" ∷ "ordinal" ∷ [])
          ∷ index "idx_messages_user" "messages" ("user_id" ∷ [])
          ∷ [];
    }
    ∷ record {
      version = 3;
      description = "Create steps table";
      statements =
          table "steps"
            (key "id"
              ∷ of_session
              ∷ required "user_id"
              ∷ column "step_number" integer (not_null ∷ [])
              ∷ defaulted "status" "pending"
              ∷ defaulted "input_messages" "[]"
              ∷ optional "output_message"
              ∷ defaulted "tool_calls" "[]"
              ∷ defaulted "tool_results" "[]"
              ∷ column "checkpoint" blob []
              ∷ required "idempotency_key"
              ∷ optional "error"
              ∷ optional "started_at"
              ∷ optional "completed_at"
              ∷ [])
            (unique ("session_id" ∷ "step_number" ∷ []) ∷ [])
          ∷ index "idx_steps_session" "steps" ("session_id" ∷ "step_number" ∷ [])
          ∷ index "idx_steps_user" "steps" ("user_id" ∷ [])
          ∷ index "idx_steps_idempotency" "steps" ("idempotency_key" ∷ [])
          ∷ [];
    }
    ∷ record {
      version = 4;
      description = "Create idempotency_keys table";
      statements =
          table "idempotency_keys"
            (key "key"
              ∷ of_session
              ∷ required "user_id"
              ∷ required "result"
              ∷ dated "created_at"
              ∷ [])
            []
          ∷ index "idx_idempotency_session" "idempotency_keys" ("session_id" ∷ [])
          ∷ [];
    }
    ∷ record {
      version = 5;
      description = "Create memory table";
      statements =
          table "memory"
            (key "id"
              ∷ required "user_id"
              ∷ optional "session_id"
              ∷ required "key"
              ∷ required "value"
              ∷ required "memory_type"
              ∷ defaulted "tags" "[]"
              ∷ dated "created_at"
              ∷ [])
            []
          ∷ index "idx_memory_user" "memory" ("user_id" ∷ "memory_type" ∷ [])
          ∷ index "idx_memory_session" "memory" ("session_id" ∷ [])
          ∷ index "idx_memory_user_key" "memory" ("user_id" ∷ "key" ∷ [])
          ∷ [];
    }
    ∷ record {
      version = 6;
      description = "Create knowledge table";
      statements =
          table "knowledge"
            (required "user_id"
              ∷ required "namespace"
              ∷ required "key"
              ∷ required "content"
              ∷ defaulted "metadata" "{}"
              ∷ dated "created_at"
              ∷ dated "updated_at"
              ∷ [])
            (primary_columns ("user_id" ∷ "namespace" ∷ "key" ∷ []) ∷ [])
          ∷ index "idx_knowledge_user_ns" "knowledge" ("user_id" ∷ "namespace" ∷ [])
          ∷ [];
    }
    ∷ record {
      version = 7;
      description = "Create approvals table";
      statements =
          table "approvals"
            (key "id"
              ∷ column "session_id" text (not_null ∷ references "sessions" "id" ∷ [])
              ∷ required "user_id"
              ∷ column "step_number" integer (not_null ∷ [])
              ∷ required "tool_name"
              ∷ required "tool_arguments"
              ∷ required "required_policy"
              ∷ defaulted "status" "pending"
              ∷ dated "requested_at"
              ∷ optional "resolved_at"
              ∷ optional "resolved_by"
              ∷ optional "reason"
              ∷ [])
            []
          ∷ index "idx_approvals_user" "approvals" ("user_id" ∷ "status" ∷ [])
          ∷ index "idx_approvals_session" "approvals" ("session_id" ∷ [])
          ∷ [];
    }
    ∷ record {
      version = 8;
      description = "Create audit_log table";
      statements =
          table "audit_log"
            (key "id"
              ∷ dated "timestamp"
              ∷ required "user_id"
              ∷ optional "session_id"
              ∷ required "action"
              ∷ defaulted "details" "{}"
              ∷ [])
            (foreign "session_id" "sessions" "id" ∷ [])
          ∷ index "idx_audit_user" "audit_log" ("user_id" ∷ [])
          ∷ index "idx_audit_action" "audit_log" ("action" ∷ [])
          ∷ index "idx_audit_time" "audit_log" ("timestamp" ∷ [])
          ∷ [];
    }
    ∷ record {
      version = 9;
      description = "Create agent_registry table";
      statements =
          table "agent_registry"
            (key "name"
              ∷ required "description"
              ∷ required "base_url"
              ∷ defaulted "tools" "[]"
              ∷ required "version"
              ∷ required "health_url"
              ∷ dated "registered_at"
              ∷ dated "last_seen_at"
              ∷ [])
            []
          ∷ [];
    }
    ∷ []
