-- ===== src/Db/Migrations.antt =====
-- agent_sdk/db/migrations.py: `MigrationRunner`, on the migrations of Db.Schema. What SQLite does
-- with a CREATE statement is a parameter; the SELECT of MAX(version) reads the rows of the table.
-- Log lines are left out.
pub mod Pending
pub mod Progress
pub mod Run
pub mod Tests
use agent_sdk.Prelude.{
  ℕ, String, Bool, true, false, leb, Option, none, some, List, [], ◌∷◌, if◌then◌else◌,
}
use agent_sdk.Prelude.Dict.{Dict, get, keys, values}
use agent_sdk.Types.{other, ok, err}
use agent_sdk.Db.Schema.{Create, Migration, migrations, schema_version}
use agent_sdk.Db.Sql.{Value, null, int, str, Row, Statement}
use agent_sdk.Db.Backend.{Backend}
use agent_sdk.Db.Exec.{Exec, pure, ◌>>=◌, ◌>>◌, execute}

abbrev pub versions : String
versions = "schema_version"

-- The version of a row.
abbrev pub version_of : Row → ℕ
version_of r = elim (get "version" r) [ some (int n) ↦ n | _ ↦ 0 ]

abbrev pub larger : ℕ → ℕ → ℕ
larger m n = if leb m n then n else m

-- `SELECT MAX(version)`, and 0 if there is no row.
unfoldable pub max_version : List Row → ℕ
max_version [] = 0
max_version (r ∷ rs) = larger (version_of r) (max_version rs)

abbrev pub version_row : Migration → Dict Value
version_row m = ("version", int m.version) ∷ ("description", str m.description) ∷ []

module _ {Db : Type 0} (E : Backend Db) (create : Create → Db → Option Db) where
  unfoldable pub execute_create : Create → Exec Db (Unit {0})
  execute_create c w = elim (create c w.db) [
    | none ↦ (err (other "sqlite3.Error"), w)
    | some d ↦ (ok tt, record w { db = d })
  ]

  unfoldable pub ensure_schema_version_table : Exec Db (Unit {0})
  ensure_schema_version_table = execute_create schema_version

  unfoldable pub fetch_version : Exec Db ℕ
  fetch_version w = (ok (max_version (E.rows w.db versions)), w)

  unfoldable pub current_version : Exec Db ℕ
  current_version = ensure_schema_version_table >> fetch_version

  unfoldable pub run_statements : List Create → Exec Db (Unit {0})
  run_statements [] = pure tt
  run_statements (c ∷ cs) = do execute_create c; run_statements cs

  -- The body of the loop in `run`.
  unfoldable pub apply : Migration → Exec Db (Unit {0})
  apply m = do
    run_statements m.statements
    execute E (Statement.insert versions (keys (version_row m))) (values (version_row m))

  -- The loop in `run`.
  unfoldable pub apply_newer : ℕ → List Migration → Exec Db (Unit {0})
  apply_newer current [] = pure tt
  apply_newer current (m ∷ ms) =
      let rest = apply_newer current ms in if leb m.version current then rest else apply m >> rest

  unfoldable pub run : Exec Db (Unit {0})
  run = do
    ensure_schema_version_table
    current ← current_version
    apply_newer current migrations
    current_version
    pure tt
