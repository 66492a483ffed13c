-- ===== src/Db/Migrations/Tests.antt =====
-- An index that cannot be created stops the fourth migration, and the next run goes on with it.
use mathlib.Core.Option.{some-injective, none-ne-some}
use agent_sdk.Prelude.{
  ap, sym, Bool-cases, inl, inr, String, ◌≡◌, refl, Option, none, some, List, [], ◌++◌, map, str_eq,
  if◌then◌else◌,
}
use agent_sdk.Prelude.Dict.{get}
use agent_sdk.Types.{other, ok, err}
use agent_sdk.Db.Schema.{Create, table, index, Migration, migrations}
use agent_sdk.Db.Exec.{World}
use agent_sdk.Db.Reference.{Tables, no_rows, reference}
use agent_sdk.Db.Migrations.{max_version, version_row, run}
use agent_sdk.Db.Migrations.Pending.{pending}
use agent_sdk.Db.Migrations.Progress.{rows_of}
use agent_sdk.Db.Migrations.Run.{run-resumes}

abbrev create : Create → Tables → Option Tables
create (table t cs ts) d = some d
create (index n t cs) d = if str_eq n "idx_idempotency_session" then none else some d

create-rows :
    (c : Create) (d e : Tables) (t : String)
    → create c d ≡ some e
    → reference.rows e t ≡ reference.rows d t
unfolding reference
create-rows (table u cs ts) d e t h = ap (λ x. x t) (sym (some-injective d e h))
create-rows (index n u cs) d e t h = elim (Bool-cases (str_eq n "idx_idempotency_session")) [
  | inl stop ↦ absurd (none-ne-some e (rw stop at h))
  | inr on ↦ ap (λ x. x t) (sym (some-injective d e (rw on at h)))
]

abbrev empty : World Tables
empty = record { db = no_rows; scope = none; reads = 0 }

abbrev stopped : World Tables
stopped = (run reference create empty).1

stops : (run reference create empty).0 ≡ err (other "sqlite3.Error")
unfolding run agent_sdk.Db.Exec.◌>>=◌ agent_sdk.Db.Migrations.ensure_schema_version_table
    agent_sdk.Db.Migrations.execute_create agent_sdk.Db.Migrations.current_version
    agent_sdk.Db.Migrations.fetch_version agent_sdk.Db.Migrations.apply_newer migrations max_version
    reference agent_sdk.Db.Migrations.apply agent_sdk.Db.Migrations.run_statements str_eq
    agent_sdk.Db.Exec.execute
stops = refl

three_recorded : max_version (rows_of reference stopped) ≡ 3
unfolding max_version reference run agent_sdk.Db.Exec.◌>>=◌
    agent_sdk.Db.Migrations.ensure_schema_version_table agent_sdk.Db.Migrations.execute_create
    agent_sdk.Db.Migrations.current_version agent_sdk.Db.Migrations.fetch_version
    agent_sdk.Db.Migrations.apply_newer migrations agent_sdk.Db.Migrations.apply
    agent_sdk.Db.Migrations.run_statements str_eq agent_sdk.Db.Exec.execute get
three_recorded = refl

run-resumes_example :
    (done : List Migration) × (left : List Migration) × (pending
        (max_version (rows_of reference stopped))
        migrations
      ≡ done ++ left)
    × (rows_of reference (run reference create stopped).1
        ≡ rows_of reference stopped ++ map version_row done)
    × ((run reference create stopped).0 ≡ ok tt → left ≡ [])
    × (pending (max_version (rows_of reference (run reference create stopped).1)) migrations ≡ left)
run-resumes_example = run-resumes reference create create-rows stopped
