-- ===== src/Db/Backend.antt =====
-- What the SDK uses of SQLite (through aiosqlite), of uuid4 and of the clock: an interface, with
-- the documented behaviour of SQL statements as its laws.
use agent_sdk.Prelude.{ℕ, String, ◌≡◌, Option, some, List, [], ◌∷◌, map, length}
use agent_sdk.Db.Sql.{
  Cond, Value, int, Row, Order, Statement, Bound, bind, satisfies, keep, limit, project, written,
}
use mathlib.Core.List.{Perm}

pub record Backend (Db : Type 0) : Type 0 where
  -- The rows of a table.
  pub rows : Db → String → List Row
  -- `none` is an error that sqlite3 raises: a constraint that fails, a locked file.
  pub execute : Statement → List Value → Db → Option Db
  pub fetch_all : Statement → List Value → Db → List Row
  -- ORDER BY
  pub sort : Option Order → List Row → List Row
  -- `uuid4().hex` and `datetime.now(timezone.utc).isoformat()` at their n-th reading.
  pub uuid4 : ℕ → String
  pub now : ℕ → String
  -- A statement that succeeds writes what its text says.
  pub rows-execute :
      (s : Statement) (ps : List Value) (d e : Db) (b : Bound) (t : String)
      → bind s ps ≡ some b
      → execute s ps d ≡ some e
      → rows e t ≡ written b (rows d) t
  -- SELECT: the rows that satisfy the WHERE clause, sorted, cut and projected.
  pub fetch_all-select :
      (s : Statement) (ps : List Value) (d : Db) (t : String) (cs : List String)
      (ws : List (Cond × Value)) (o : Option Order) (n : Option Value)
      → bind s ps ≡ some (Bound.select t cs ws o n)
      → fetch_all s ps d ≡ map (project cs) (limit n (sort o (keep (satisfies ws) (rows d t))))
  -- SELECT COUNT(*): one row, the number of rows that satisfy the WHERE clause.
  pub fetch_all-count :
      (s : Statement) (ps : List Value) (d : Db) (t : String) (ws : List (Cond × Value))
      → bind s ps ≡ some (Bound.count t ws)
      → fetch_all s ps d ≡ (("cnt", int (length (keep (satisfies ws) (rows d t)))) ∷ []) ∷ []
  pub sort-perm : (o : Option Order) (rs : List Row) → Perm (sort o rs) rs
