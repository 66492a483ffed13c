-- ===== src/Db/Migrations/Run.antt =====
-- How far a run of the migrations gets, and where the next one goes on.
use mathlib.Core.Path.{subst}
use agent_sdk.Prelude.{ℕ, String, ◌≡◌, refl, ap, ◌∙◌, Option, some, List, [], ◌++◌, map, arith}
use agent_sdk.Types.{Result, ok, err}
use agent_sdk.Db.Schema.{Create, schema_version, Migration, migrations}
use agent_sdk.Db.Sql.{Row}
use agent_sdk.Db.Backend.{Backend}
use agent_sdk.Db.Exec.{World, Exec, pure, ◌>>=◌, ◌>>◌, continue}
use agent_sdk.Db.Migrations.Pending.{pending, Ascending, max_version-append, pending-rest}
use agent_sdk.Db.Migrations.Progress.{
  Progress, rows_of, continue-rows, execute_create-rows, none_done, apply_newer-Progress,
}
use agent_sdk.Db.Migrations.{
  max_version, version_row, ensure_schema_version_table, fetch_version, current_version,
  apply_newer, run,
}

migrations-Ascending : Ascending 0 migrations
unfolding migrations
migrations-Ascending = (
  omega arith,
  (
    omega arith,
    (
      omega arith,
      (omega arith, (omega arith, (omega arith, (omega arith, (omega arith, (omega arith, tt)))))),
    ),
  ),
)

module _ {Db : Type 0} (E : Backend Db) (create : Create → Db → Option Db)
    (create-rows : (c : Create) (d e : Db) (t : String)
      → create c d ≡ some e
      → E.rows e t ≡ E.rows d t) where
  ensure-rows : (w : World Db) → rows_of E (ensure_schema_version_table E create w).1 ≡ rows_of E w
  unfolding ensure_schema_version_table
  ensure-rows w = execute_create-rows E create create-rows schema_version w

  -- The current version is the largest that is recorded.
  abbrev Found : List Row → List Row → Result ℕ → Type 0
  Found before after r = (after ≡ before) × ((c : ℕ) → r ≡ ok c → c ≡ max_version before)

  abbrev Version : World Db → World Db → Result ℕ → Type 0
  Version w v r = Found (rows_of E w) (rows_of E v) r

  current_version-Version :
      (w : World Db) → Version w (current_version E create w).1 (current_version E create w).0
  unfolding current_version fetch_version ◌>>=◌
  current_version-Version w =
      by_result (ensure_schema_version_table E create w).0
        (ensure_schema_version_table E create w).1 (ensure-rows w)
    where
      by_result :
          (r : Result (Unit {0})) (v : World Db)
          → rows_of E v ≡ rows_of E w
          → Version w
              (continue r (λ _. fetch_version E create) v).1
              (continue r (λ _. fetch_version E create) v).0
      by_result (ok u) v e = (e, λ c h. cc (h, e))
      by_result (err x) v e = (e, λ c h. cc)

  module _ (ms : List Migration) where
    abbrev Goes : World Db → Result (Unit {0}) × World Db → Type 0
    Goes w x = Progress (pending (max_version (rows_of E w)) ms) (rows_of E w) (rows_of E x.1) x.0

    -- The version that `run` reads in the end does not matter.
    abbrev read_again : Exec Db (Unit {0})
    read_again = do current_version E create; pure tt

    abbrev go_on : ℕ → Exec Db (Unit {0})
    go_on c = do apply_newer E create c ms; read_again

    read_again-rows : (v : World Db) → rows_of E (read_again v).1 ≡ rows_of E v
    unfolding ◌>>=◌ pure
    read_again-rows v =
        continue-rows E create create-rows (current_version E create v).0
          (current_version E create v).1 (λ _. pure tt) (λ _. refl)
        ∙ (current_version-Version v).0

    go_on-Progress :
        (c : ℕ) (w : World Db)
        → Progress (pending c ms) (rows_of E w) (rows_of E (go_on c w).1) (go_on c w).0
    unfolding ◌>>=◌
    go_on-Progress c w =
        by_result (apply_newer E create c ms w).0 (apply_newer E create c ms w).1
          (apply_newer-Progress E create create-rows c ms w)
      where
        by_result :
            (r : Result (Unit {0})) (v : World Db)
            → Progress (pending c ms) (rows_of E w) (rows_of E v) r
            → Progress
                (pending c ms)
                (rows_of E w)
                (rows_of E (continue r (λ _. read_again) v).1)
                (continue r (λ _. read_again) v).0
        by_result (ok u) v p = record {
          done = p.done;
          left = p.left;
          split = p.split;
          recorded = read_again-rows v ∙ p.recorded;
          complete = λ _. p.complete refl;
        }
        by_result (err x) v p = p

  run-Goes :
      (w : World Db)
      → Progress
          (pending (max_version (rows_of E w)) migrations)
          (rows_of E w)
          (rows_of E (run E create w).1)
          (run E create w).0
  unfolding run ◌>>=◌
  run-Goes w =
      by_ensure (ensure_schema_version_table E create w).0
        (ensure_schema_version_table E create w).1 (ensure-rows w)
    where
      by_version :
          (r : Result ℕ) (v : World Db)
          → Version w v r
          → Goes migrations w (continue r (go_on migrations) v)
      by_version (ok c) v k =
          subst
            (λ n.
              Progress (pending n migrations) (rows_of E w) (rows_of E (go_on migrations c v).1)
                (go_on migrations c v).0)
            (k.1 c refl)
            (subst
              (λ rs.
                Progress (pending c migrations) rs (rows_of E (go_on migrations c v).1)
                  (go_on migrations c v).0)
              (k.0) (go_on-Progress migrations c v))
      by_version (err x) v k =
          none_done (pending (max_version (rows_of E w)) migrations) (rows_of E w) (rows_of E v)
            (err x) (k.0) (λ h. cc)

      by_ensure :
          (r : Result (Unit {0})) (v : World Db)
          → rows_of E v ≡ rows_of E w
          → Goes migrations w (continue r (λ _. current_version E create >>= go_on migrations) v)
      by_ensure (ok u) v e =
          by_version (current_version E create v).0 (current_version E create v).1 (
            subst
              (λ rs.
                Found rs (rows_of E (current_version E create v).1) (current_version E create v).0)
              e (current_version-Version v))
      by_ensure (err x) v e =
          none_done (pending (max_version (rows_of E w)) migrations) (rows_of E w) (rows_of E v)
            (err x) e (λ h. cc)

  -- A run of the migrations, also one that is cut short by an exception, records the first of those
  -- that are newer than the recorded version, in their order, and all of them if nothing was raised.
  -- The next run finds just the rest to do. That the CREATE statements leave the rows alone is a
  -- hypothesis.
  pub run-resumes :
      (w : World Db)
      → (done : List Migration) × (left : List Migration) × (pending
            (max_version (rows_of E w))
            migrations
          ≡ done ++ left)
        × (rows_of E (run E create w).1 ≡ rows_of E w ++ map version_row done)
        × ((run E create w).0 ≡ ok tt → left ≡ [])
        × (pending (max_version (rows_of E (run E create w).1)) migrations ≡ left)
  run-resumes w =
      let p = run-Goes w in
      (
        p.done,
        p.left,
        p.split,
        p.recorded,
        p.complete,
        ap (λ rs. pending (max_version rs) migrations) p.recorded
            ∙ ap (λ c. pending c migrations)
                (max_version-append (rows_of E w) (map version_row p.done))
            ∙ pending-rest (max_version (rows_of E w)) 0 migrations p.done p.left
                migrations-Ascending p.split,
      )
