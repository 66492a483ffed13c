-- ===== src/Isolation/Filter/Build.antt =====
-- The statements that `ScopedQueryBuilder` of agent_sdk/isolation/filter.py builds for the user of
-- the scope, each with the list of its parameters.
use agent_sdk.Prelude.{ℕ, String, Option, none, some, List, [], ◌∷◌, ◌++◌, map, Bool, true, false}
use agent_sdk.Prelude.Dict
use agent_sdk.Prelude.Dict.{Dict, keys, values}
use agent_sdk.Db.Sql.{Value, int, str, Cond, eq, Order, Statement}

-- `{"user_id": user_id}`, updated with the caller's `where`, if it gives one.
unfoldable pub conditions : String → Option (Dict Value) → Dict Value
conditions user_id none = ("user_id", str user_id) ∷ []
conditions user_id (some extra) = Dict.update (("user_id", str user_id) ∷ []) extra

-- `" AND ".join(f"{k} = ?" for k in conditions)`
abbrev pub clauses : Dict Value → List Cond
clauses d = map eq (keys d)

-- `LIMIT ?` with its parameter, if there is a limit.
abbrev pub has_limit : Option ℕ → Bool
has_limit none = false
has_limit (some n) = true

abbrev pub limit_param : Option ℕ → List Value
limit_param none = []
limit_param (some n) = int n ∷ []

unfoldable pub select :
    String
    → String
    → List String
    → Option (Dict Value)
    → Option Order
    → Option ℕ
    → Statement × List Value
unfolding conditions
select user_id table columns extra order_by limit =
    let conds = conditions user_id extra in
    (
      Statement.select table columns (clauses conds) order_by (has_limit limit),
      values conds ++ limit_param limit,
    )

unfoldable pub insert : String → String → Dict Value → Statement × List Value
insert user_id table row =
    let all = Dict.put "user_id" (str user_id) row in
    (Statement.insert table (keys all), values all)

unfoldable pub update : String → String → Dict Value → Option (Dict Value) → Statement × List Value
unfolding conditions
update user_id table set_ extra =
    let conds = conditions user_id extra in
    (Statement.update table (keys set_) (clauses conds), values set_ ++ values conds)

unfoldable pub delete : String → String → Option (Dict Value) → Statement × List Value
unfolding conditions
delete user_id table extra =
    let conds = conditions user_id extra in (Statement.delete table (clauses conds), values conds)
