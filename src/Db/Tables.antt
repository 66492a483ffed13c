-- ===== src/Db/Tables.antt =====
-- What the CREATE statements say of a table: its primary key, and whether its rows go with a session.
use agent_sdk.Prelude.{String, Bool, true, false, ◌||◌, List, [], ◌∷◌, ◌++◌, str_eq, if◌then◌else◌}
use agent_sdk.Db.Schema.{
  Constraint, primary, cascade, Column, TableConstraint, primary_columns, Create, table, index,
  Migration, migrations,
}

is_primary : List Constraint → Bool
is_primary [] = false
is_primary (primary ∷ cs) = true
is_primary (_ ∷ cs) = is_primary cs

is_cascade : List Constraint → Bool
is_cascade [] = false
is_cascade (cascade t c ∷ cs) = true
is_cascade (_ ∷ cs) = is_cascade cs

primary_of : List Column → List String
unfolding is_primary
primary_of [] = []
primary_of (c ∷ cs) = if is_primary c.constraints then c.name ∷ primary_of cs else primary_of cs

table_primary : List TableConstraint → List String
table_primary [] = []
table_primary (primary_columns cs ∷ rest) = cs
table_primary (_ ∷ rest) = table_primary rest

any_cascade : List Column → Bool
unfolding is_cascade
any_cascade [] = false
any_cascade (c ∷ cs) = is_cascade c.constraints || any_cascade cs

key_in : String → List Create → List String
unfolding primary_of table_primary
key_in t [] = []
key_in t (table n cs ts ∷ rest) =
    if str_eq t n then primary_of cs ++ table_primary ts else key_in t rest
key_in t (index n u cs ∷ rest) = key_in t rest

cascades_in : String → List Create → Bool
unfolding any_cascade
cascades_in t [] = false
cascades_in t (table n cs ts ∷ rest) = if str_eq t n then any_cascade cs else cascades_in t rest
cascades_in t (index n u cs ∷ rest) = cascades_in t rest

creates : List Migration → List Create
creates [] = []
creates (m ∷ ms) = m.statements ++ creates ms

-- The columns of the primary key of a table.
unfoldable pub primary_key : String → List String
unfolding migrations key_in creates
primary_key t = key_in t (creates migrations)

-- Whether the rows of a table go with the session that they refer to.
unfoldable pub cascades : String → Bool
unfolding migrations cascades_in creates
cascades t = cascades_in t (creates migrations)
