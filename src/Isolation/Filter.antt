-- ===== src/Isolation/Filter.antt =====
-- agent_sdk/isolation/filter.py: `ScopedQueryBuilder`. Each method reads the user scope, or
-- raises, and returns the statement with its parameters.
pub mod Build
pub mod Bound
pub mod Owned
use agent_sdk.Prelude.{ℕ, String, Option, List}
use agent_sdk.Prelude.Dict.{Dict}
use agent_sdk.Db.Sql.{Value, Order, Statement}
use agent_sdk.Db.Exec.{Exec, ◌>>=◌, pure}
use agent_sdk.Isolation.Scope.{get_user_scope}

module _ {Db : Type 0} where
  unfoldable pub select :
      String
      → List String
      → Option (Dict Value)
      → Option Order
      → Option ℕ
      → Exec Db (Statement × List Value)
  select table columns extra order_by limit = do
    user_id ← get_user_scope
    pure (Build.select user_id table columns extra order_by limit)

  unfoldable pub insert : String → Dict Value → Exec Db (Statement × List Value)
  insert table row = do user_id ← get_user_scope; pure (Build.insert user_id table row)

  unfoldable pub update :
      String → Dict Value → Option (Dict Value) → Exec Db (Statement × List Value)
  update table set_ extra = do
    user_id ← get_user_scope
    pure (Build.update user_id table set_ extra)

  unfoldable pub delete : String → Option (Dict Value) → Exec Db (Statement × List Value)
  delete table extra = do user_id ← get_user_scope; pure (Build.delete user_id table extra)
