-- ===== src/Db/Sql.antt =====
-- The SQL text that the SDK builds, as trees: a placeholder `?` is a place that `bind` fills from
-- the list of parameters, in order. A row has the columns that statements gave it; a column that
-- has its default is absent.
use agent_sdk.Prelude.{
  ℕ, String, Bool, true, false, not, ◌&&◌, ◌||◌, ltb, ◌==◌, str_eq, if◌then◌else◌, Option, none,
  some, List, [], ◌∷◌, ◌++◌, map, take,
}
use agent_sdk.Db.Tables.{primary_key, cascades}
use Prim.Native.String.{compare}
use text.Mathlib.Text.{is_lt}
use agent_sdk.Prelude.Dict
use agent_sdk.Prelude.Dict.{Dict, get}

-- A value of SQLite. A BLOB is the text that it encodes.
pub data Value : Type 0 where
  null : Value
  int : ℕ → Value
  str : String → Value

abbrev pub Row : Type 0
Row = Dict Value

pub data Direction : Type 0 where
  asc desc : Direction

-- `column = ?`, `column < ?` and `column >= ?`
pub data Cond : Type 0 where
  eq lt ge : String → Cond

pub record Order : Type 0 where
  pub column : String
  pub direction : Direction

pub data Statement : Type 0 where
  -- SELECT columns FROM table WHERE … [ORDER BY …] [LIMIT ?]
  select : String → List String → List Cond → Option Order → Bool → Statement
  -- SELECT COUNT(*) as cnt FROM table WHERE …
  count : String → List Cond → Statement
  -- INSERT INTO table (columns) VALUES (?, …)
  insert : String → List String → Statement
  -- INSERT OR IGNORE INTO table (columns) VALUES (?, …)
  insert_or_ignore : String → List String → Statement
  -- INSERT … ON CONFLICT(keys) DO UPDATE SET column = excluded.column, …
  upsert : (table : String) (columns keys updates : List String) → Statement
  -- UPDATE table SET column = ?, … WHERE …
  update : String → List String → List Cond → Statement
  -- DELETE FROM table WHERE …
  delete : String → List Cond → Statement

-- A statement whose placeholders have their values.
pub data Bound : Type 0 where
  select : String → List String → List (Cond × Value) → Option Order → Option Value → Bound
  count : String → List (Cond × Value) → Bound
  insert insert_or_ignore : String → Row → Bound
  upsert : String → Row → (keys updates : List String) → Bound
  update : String → Row → List (Cond × Value) → Bound
  delete : String → List (Cond × Value) → Bound

-- The parameters in order, each at its placeholder. `none` is the error of sqlite3 for a wrong
-- number of parameters.
unfoldable pub pair_up {ℓ} :
    {A : Type ℓ} → List A → List Value → Option (List (A × Value) × List Value)
pair_up [] ps = some ([], ps)
pair_up (a ∷ l) [] = none
pair_up (a ∷ l) (p ∷ ps) = elim (pair_up l ps) [
  | none ↦ none
  | some (pairs, rest) ↦ some ((a, p) ∷ pairs, rest)
]

bind_limit : Bool → List Value → Option (Option Value)
bind_limit false [] = some none
bind_limit true (p ∷ []) = some (some p)
bind_limit _ _ = none

bind_end : {A : Type 0} → A → List Value → Option A
bind_end a [] = some a
bind_end a (p ∷ ps) = none

unfoldable pub bind : Statement → List Value → Option Bound
unfolding pair_up bind_limit bind_end
bind (select t cs ws o l) ps = elim (pair_up ws ps) [
  | none ↦ none
  | some (conds, rest) ↦ elim (bind_limit l rest) [
    | none ↦ none
    | some n ↦ some (select t cs conds o n)
  ]
]
bind (count t ws) ps = elim (pair_up ws ps) [
  | none ↦ none
  | some (conds, rest) ↦ bind_end (count t conds) rest
]
bind (insert t cs) ps = elim (pair_up cs ps) [
  | none ↦ none
  | some (row, rest) ↦ bind_end (insert t row) rest
]
bind (insert_or_ignore t cs) ps = elim (pair_up cs ps) [
  | none ↦ none
  | some (row, rest) ↦ bind_end (insert_or_ignore t row) rest
]
bind (upsert t cs keys updates) ps = elim (pair_up cs ps) [
  | none ↦ none
  | some (row, rest) ↦ bind_end (upsert t row keys updates) rest
]
bind (update t cs ws) ps = elim (pair_up cs ps) [
  | none ↦ none
  | some (row, rest) ↦ elim (pair_up ws rest) [
    | none ↦ none
    | some (conds, end) ↦ bind_end (update t row conds) end
  ]
]
bind (delete t ws) ps = elim (pair_up ws ps) [
  | none ↦ none
  | some (conds, rest) ↦ bind_end (delete t conds) rest
]

-- Comparisons in SQL: one with NULL is never true.
unfoldable pub sql_eq : Value → Value → Bool
sql_eq (int m) (int n) = m == n
sql_eq (str s) (str t) = str_eq s t
sql_eq _ _ = false

unfoldable pub sql_lt : Value → Value → Bool
sql_lt (int m) (int n) = ltb m n
sql_lt (str s) (str t) = is_lt (compare s t)
sql_lt _ _ = false

unfoldable pub holds : Row → Cond → Value → Bool
unfolding sql_eq sql_lt
holds r (eq c) v = elim (get c r) [ none ↦ false | some w ↦ sql_eq w v ]
holds r (lt c) v = elim (get c r) [ none ↦ false | some w ↦ sql_lt w v ]
holds r (ge c) v = elim (get c r) [ none ↦ false | some w ↦ sql_lt v w || sql_eq w v ]

-- The WHERE clause at a row.
unfoldable pub satisfies : List (Cond × Value) → Row → Bool
satisfies [] r = true
satisfies ((c, v) ∷ cs) r = holds r c v && satisfies cs r

unfoldable pub keep {ℓ} : {A : Type ℓ} → (A → Bool) → List A → List A
keep p [] = []
keep p (x ∷ xs) = if p x then x ∷ keep p xs else keep p xs

-- LIMIT
unfoldable pub limit : Option Value → List Row → List Row
limit (some (int n)) rs = take n rs
limit _ rs = rs

unfoldable pub project : List String → Row → Row
project [] r = []
project (c ∷ cs) r =
    if str_eq c "*"
    then r
    else elim (get c r) [ none ↦ project cs r | some v ↦ (c, v) ∷ project cs r ]

unfoldable pub any {ℓ} : {A : Type ℓ} → (A → Bool) → List A → Bool
any p [] = false
any p (x ∷ xs) = p x || any p xs

-- Both rows have the same value in the column, which is not NULL.
unfoldable pub same_value : String → String → Row → Row → Bool
same_value c d r s = elim (get c r) [
  | none ↦ false
  | some v ↦ elim (get d s) [ none ↦ false | some w ↦ sql_eq v w ]
]

unfoldable pub same_key : List String → Row → Row → Bool
same_key [] r s = true
same_key (c ∷ cs) r s = same_value c c r s && same_key cs r s

-- ON CONFLICT(keys) DO UPDATE SET …: the row with the same key takes the columns that are named.
unfoldable pub upserted : Row → (keys updates : List String) → List Row → List Row
unfolding same_key same_value any project
upserted row keys updates rs =
    if any (same_key keys row) rs
    then map (λ r. if same_key keys row r then Dict.update r (project updates row) else r) rs
    else rs ++ row ∷ []

-- The row is ignored if its primary key is taken.
unfoldable pub added : List String → Row → List Row → List Row
unfolding same_key same_value any
added keys row rs = if any (same_key keys row) rs then rs else rs ++ row ∷ []

-- ON DELETE CASCADE: the rows of a table, without those that refer to a session that is gone.
unfoldable pub cascaded : String → List Row → List Row → List Row
unfolding keep any same_value
cascaded t gone rs =
    if cascades t then keep (λ r. not (any (same_value "session_id" "id" r) gone)) rs else rs

-- The tables after a statement that succeeds.
unfoldable pub written : Bound → (String → List Row) → String → List Row
unfolding satisfies keep added upserted cascaded
written (select t cs ws o n) tables u = tables u
written (count t ws) tables u = tables u
written (insert t row) tables u = if str_eq t u then tables u ++ row ∷ [] else tables u
written (insert_or_ignore t row) tables u =
    if str_eq t u then added (primary_key t) row (tables u) else tables u
written (upsert t row keys updates) tables u =
    if str_eq t u then upserted row keys updates (tables u) else tables u
written (update t row ws) tables u =
    if str_eq t u
    then map (λ r. if satisfies ws r then Dict.update r row else r) (tables u)
    else tables u
written (delete t ws) tables u =
    if str_eq t u
    then keep (λ r. not (satisfies ws r)) (tables u)
    else if str_eq t "sessions"
    then cascaded u (keep (satisfies ws) (tables t)) (tables u)
    else tables u
