-- ===== src/Db/Migrations/Progress.antt =====
-- The migrations that a loop applies before something is raised.
use mathlib.Core.Path.{subst}
use mathlib.Core.List.{append_assoc, append-nil}
use agent_sdk.Prelude.{
  ℕ, String, ◌≡◌, refl, sym, ap, ◌∙◌, leb, Option, none, some, List, [], ◌∷◌, ◌++◌, map, arith,
  Bool-cases, inl, inr, str_eq,
}
use agent_sdk.Prelude.Dict.{keys, values}
use agent_sdk.Types.{Error, other, Result, ok, err}
use agent_sdk.Db.Schema.{Create, Migration}
use agent_sdk.Db.Sql
use agent_sdk.Db.Sql.{Value, int, Row, Statement, bind, pair_up, written}
use agent_sdk.Db.Backend.{Backend}
use agent_sdk.Db.Exec.{World, Exec, pure, ◌>>=◌, continue, execute}
use agent_sdk.Db.Migrations.Pending.{pending}
use agent_sdk.Db.Exec.Rows.{execute-rows}
use agent_sdk.Db.Migrations.{
  versions, version_row, execute_create, run_statements, apply, apply_newer,
}

-- The rows of the table of versions.
abbrev pub rows_of : {Db : Type 0} → Backend Db → World Db → List Row
rows_of E w = E.rows w.db versions

-- The first of some migrations are recorded, all of them if nothing was raised.
pub record Progress (ms : List Migration) (before after : List Row) (r : Result (Unit {0}))
    : Type 0 where
  pub done : List Migration
  pub left : List Migration
  pub split : ms ≡ done ++ left
  pub recorded : after ≡ before ++ map version_row done
  pub complete : r ≡ ok tt → left ≡ []

after_one :
    (m : Migration) (ms : List Migration) (before after : List Row) (r : Result (Unit {0}))
    → Progress ms (before ++ version_row m ∷ []) after r
    → Progress (m ∷ ms) before after r
after_one m ms before after r p = record {
  done = m ∷ p.done;
  left = p.left;
  split = ap (◌∷◌ m) p.split;
  recorded = p.recorded ∙ append_assoc before (version_row m ∷ []) (map version_row p.done);
  complete = p.complete;
}

pub none_done :
    (ms : List Migration) (before after : List Row) (r : Result (Unit {0}))
    → after ≡ before
    → (r ≡ ok tt → ms ≡ [])
    → Progress ms before after r
none_done ms before after r e h = record {
  done = [];
  left = ms;
  split = refl;
  recorded = e ∙ sym (append-nil before);
  complete = h;
}

module _ {Db : Type 0} (E : Backend Db) (create : Create → Db → Option Db)
    (create-rows : (c : Create) (d e : Db) (t : String)
      → create c d ≡ some e
      → E.rows e t ≡ E.rows d t) where
  pub execute_create-rows :
      (c : Create) (w : World Db) → rows_of E (execute_create E create c w).1 ≡ rows_of E w
  unfolding execute_create
  execute_create-rows c w = by_result (create c w.db) refl
    where
      by_result :
          (o : Option Db)
          → create c w.db ≡ o
          → rows_of E
              (elim o as (λ _. Result (Unit {0}) × World Db) [
                | none ↦ (err (other "sqlite3.Error"), w)
                | some d ↦ (ok tt, record w { db = d })
              ]).1
            ≡ rows_of E w
      by_result none e = refl
      by_result (some d) e = create-rows c w.db d versions e

  pub continue-rows :
      {A B : Type 0} (r : Result A) (v : World Db) (f : A → Exec Db B)
      → ((a : A) → rows_of E (f a v).1 ≡ rows_of E v)
      → rows_of E (continue r f v).1 ≡ rows_of E v
  continue-rows (ok a) v f h = h a
  continue-rows (err e) v f h = refl

  run_statements-rows :
      (cs : List Create) (w : World Db) → rows_of E (run_statements E create cs w).1 ≡ rows_of E w
  unfolding run_statements ◌>>=◌ pure
  run_statements-rows [] w = refl
  run_statements-rows (c ∷ cs) w =
      continue-rows (execute_create E create c w).0 (execute_create E create c w).1
        (λ u. run_statements E create cs)
        (λ u. run_statements-rows cs (execute_create E create c w).1)
      ∙ execute_create-rows c w

  -- A migration that fails is not recorded, one that succeeds is.
  abbrev Applied : Migration → List Row → List Row → Result (Unit {0}) → Type 0
  Applied m before after (ok u) = after ≡ before ++ version_row m ∷ []
  Applied m before after (err e) = after ≡ before

  abbrev record_version : Migration → Exec Db (Unit {0})
  record_version m =
      execute E (Statement.insert versions (keys (version_row m))) (values (version_row m))

  execute-err :
      (s : Statement) (ps : List Value) (w : World Db) (e : Error)
      → (execute E s ps w).0 ≡ err e
      → (execute E s ps w).1 ≡ w
  unfolding execute
  execute-err s ps w e h = ground (arith, h)

  record-Applied :
      (m : Migration) (w : World Db)
      → Applied m (rows_of E w) (rows_of E (record_version m w).1) (record_version m w).0
  unfolding written bind pair_up str_eq
  record-Applied m w = by_result (record_version m w).0 refl
    where
      by_result :
          (r : Result (Unit {0}))
          → (record_version m w).0 ≡ r
          → Applied m (rows_of E w) (rows_of E (record_version m w).1) r
      by_result (ok tt) e =
          execute-rows E (Statement.insert versions (keys (version_row m))) (values (version_row m))
            w (Sql.Bound.insert versions (version_row m)) refl e versions
      by_result (err x) e = ap (rows_of E) (execute-err _ _ w x e)

  apply-Applied :
      (m : Migration) (w : World Db)
      → Applied m (rows_of E w) (rows_of E (apply E create m w).1) (apply E create m w).0
  unfolding apply ◌>>=◌
  apply-Applied m w =
      by_statements (run_statements E create m.statements w).0
        (run_statements E create m.statements w).1 (run_statements-rows m.statements w)
    where
      by_statements :
          (r : Result (Unit {0})) (v : World Db)
          → rows_of E v ≡ rows_of E w
          → Applied m
              (rows_of E w)
              (rows_of E (continue r (λ _. record_version m) v).1)
              (continue r (λ _. record_version m) v).0
      by_statements (ok tt) v e =
          subst (λ rs. Applied m rs (rows_of E (record_version m v).1) (record_version m v).0) e
            (record-Applied m v)
      by_statements (err x) v e = e

  pub apply_newer-Progress :
      (c : ℕ) (ms : List Migration) (w : World Db)
      → Progress
          (pending c ms)
          (rows_of E w)
          (rows_of E (apply_newer E create c ms w).1)
          (apply_newer E create c ms w).0
  unfolding apply_newer pending ◌>>=◌ pure
  apply_newer-Progress c [] w = none_done [] (rows_of E w) (rows_of E w) (ok tt) refl (λ _. refl)
  apply_newer-Progress c (m ∷ ms) w = elim (Bool-cases (leb m.version c)) [
    | inl e ↦ rw e (apply_newer-Progress c ms w)
    | inr e ↦ rw e (
        by_result (apply E create m w).0 (apply E create m w).1 (apply-Applied m w)
          (apply_newer-Progress c ms (apply E create m w).1))
  ]
    where
      by_result :
          (r : Result (Unit {0})) (v : World Db)
          → Applied m (rows_of E w) (rows_of E v) r
          → Progress
              (pending c ms)
              (rows_of E v)
              (rows_of E (apply_newer E create c ms v).1)
              (apply_newer E create c ms v).0
          → Progress
              (m ∷ pending c ms)
              (rows_of E w)
              (rows_of E (continue r (λ _. apply_newer E create c ms) v).1)
              (continue r (λ _. apply_newer E create c ms) v).0
      by_result (ok tt) v applied p = after_one m (pending c ms) (rows_of E w) _ _ (
          subst
            (λ rs.
              Progress (pending c ms) rs (rows_of E (apply_newer E create c ms v).1)
                (apply_newer E create c ms v).0)
            applied p)
      by_result (err x) v applied p =
          none_done (m ∷ pending c ms) (rows_of E w) (rows_of E v) (err x) applied (λ h. cc)
