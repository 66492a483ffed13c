-- ===== src/Db/Exec/Rows.antt =====
-- One statement: the rows that it leaves, and the rows that it finds.
use agent_sdk.Prelude.{String, ◌≡◌, refl, ap, ◌∙◌, Option, none, some, List, [], ◌∷◌, map, arith}
use agent_sdk.Types.{Result, other, ok, err}
use agent_sdk.Db.Sql.{
  Value, Row, Cond, Order, Statement, Bound, bind, satisfies, keep, limit, project, written,
}
use agent_sdk.Db.Backend.{Backend}
use agent_sdk.Db.Keys.{perm-one}
use agent_sdk.Db.Exec.{World, execute, fetch_one, first}

module _ {Db : Type 0} (E : Backend Db) (s : Statement) (ps : List Value) (w : World Db) where
  -- A statement that succeeds, in all tables.
  pub execute-rows :
      (b : Bound)
      → bind s ps ≡ some b
      → (execute E s ps w).0 ≡ ok tt
      → (t : String) → E.rows (execute E s ps w).1.db t ≡ written b (E.rows w.db) t
  unfolding execute
  execute-rows b bound done t = by_result (E.execute s ps w.db) refl done
    where
      by_result :
          (o : Option Db)
          → E.execute s ps w.db ≡ o
          → (elim o as (λ _. Result (Unit {0}) × World Db) [
            | none ↦ (err (other "sqlite3.Error"), w)
            | some d ↦ (ok tt, record w { db = d })
          ]).0
            ≡ ok tt
          → E.rows
              (elim o as (λ _. Result (Unit {0}) × World Db) [
                | none ↦ (err (other "sqlite3.Error"), w)
                | some d ↦ (ok tt, record w { db = d })
              ]).1.db
              t
            ≡ written b (E.rows w.db) t
      by_result none e h = cc
      by_result (some d) e h = E.rows-execute s ps w.db d b t bound e

  pub execute-scope : (execute E s ps w).1.scope ≡ w.scope
  unfolding execute
  execute-scope = ground arith

  module _ (t : String) (cs : List String) (ws : List (Cond × Value)) (o : Option Order)
      (n : Option Value) (bound : bind s ps ≡ some (Bound.select t cs ws o n)) where
    pub fetch_one-rows : fetch_one E s ps w ≡ (
      ok (first (map (project cs) (limit n (E.sort o (keep (satisfies ws) (E.rows w.db t)))))),
      w,
    )
    unfolding fetch_one
    fetch_one-rows =
        ap (λ (rs : List Row). (ok (first rs), w)) (E.fetch_all-select s ps w.db t cs ws o n bound)

    -- The only row that meets the conditions.
    pub fetch_one-only :
        (r : Row)
        → n ≡ none
        → keep (satisfies ws) (E.rows w.db t) ≡ r ∷ []
        → fetch_one E s ps w ≡ (ok (some (project cs r)), w)
    unfolding limit
    fetch_one-only r whole only =
        fetch_one-rows
        ∙ rw (whole, only, perm-one (E.sort o (r ∷ [])) r (E.sort-perm o (r ∷ []))) refl
