-- ===== src/Isolation/Filter/Bound.antt =====
-- The parameters of a built statement meet their placeholders.
use agent_sdk.Prelude.{ℕ, String, ◌≡◌, refl, Option, none, some, List, [], ◌∷◌, ◌++◌, map}
use agent_sdk.Prelude.Dict.{Dict, keys, values}
use mathlib.Core.List.{append-nil}
use agent_sdk.Prelude.Dict
use agent_sdk.Db.Sql
use agent_sdk.Db.Sql.{Value, int, str, Cond, eq, Order, Statement, pair_up, bind}
use agent_sdk.Isolation.Filter.Build.{conditions, clauses, has_limit, limit_param}
use agent_sdk.Isolation.Filter.Build

abbrev pub limit_value : Option ℕ → Option Value
limit_value none = none
limit_value (some n) = some (int n)

-- The items of a dict as conditions.
abbrev pub equalities : Dict Value → List (Cond × Value)
equalities = map (λ p. (eq p.0, p.1))

pair_up-keys :
    (d : Dict Value) (rest : List Value) → pair_up (keys d) (values d ++ rest) ≡ some (d, rest)
unfolding pair_up
pair_up-keys [] rest = refl
pair_up-keys ((k, v) ∷ d) rest = rw (pair_up-keys d rest) refl

pair_up-clauses :
    (d : Dict Value) (rest : List Value)
    → pair_up (clauses d) (values d ++ rest) ≡ some (equalities d, rest)
unfolding pair_up
pair_up-clauses [] rest = refl
pair_up-clauses ((k, v) ∷ d) rest = rw (pair_up-clauses d rest) refl

pub pair_up-keys_end : (d : Dict Value) → pair_up (keys d) (values d) ≡ some (d, [])
pair_up-keys_end d = rw (← append-nil (values d)) (pair_up-keys d [])

pair_up-clauses_end : (d : Dict Value) → pair_up (clauses d) (values d) ≡ some (equalities d, [])
pair_up-clauses_end d = rw (← append-nil (values d)) (pair_up-clauses d [])

-- A built SELECT binds to its conditions, all of them equations with the given values.
pub bind-select :
    (u table : String) (columns : List String) (extra : Option (Dict Value)) (o : Option Order)
    (n : Option ℕ)
    → bind (Build.select u table columns extra o n).0 (Build.select u table columns extra o n).1
      ≡ some (Sql.Bound.select table columns (equalities (conditions u extra)) o (limit_value n))
unfolding bind Build.select
bind-select u table columns extra o none = rw (pair_up-clauses (conditions u extra) [], bind)
bind-select u table columns extra o (some n) =
    rw (pair_up-clauses (conditions u extra) (int n ∷ []), bind)

pub bind-insert :
    (u table : String) (row : Dict Value)
    → bind (Build.insert u table row).0 (Build.insert u table row).1
      ≡ some (Sql.Bound.insert table (Dict.put "user_id" (str u) row))
unfolding bind Build.insert
bind-insert u table row = rw (pair_up-keys_end (Dict.put "user_id" (str u) row), bind)

-- A built UPDATE binds, each parameter at its placeholder, to the given assignments, for the rows
-- whose columns equal the conditions with the user's added.
pub bind-update :
    (u table : String) (set_ : Dict Value) (extra : Option (Dict Value))
    → bind (Build.update u table set_ extra).0 (Build.update u table set_ extra).1
      ≡ some (Sql.Bound.update table set_ (equalities (conditions u extra)))
unfolding bind Build.update
bind-update u table set_ extra = rw (
  pair_up-keys set_ (values (conditions u extra)),
  pair_up-clauses_end (conditions u extra),
  bind,
)

pub bind-delete :
    (u table : String) (extra : Option (Dict Value))
    → bind (Build.delete u table extra).0 (Build.delete u table extra).1
      ≡ some (Sql.Bound.delete table (equalities (conditions u extra)))
unfolding bind Build.delete
bind-delete u table extra = rw (pair_up-clauses_end (conditions u extra), bind)
