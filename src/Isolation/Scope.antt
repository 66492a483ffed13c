-- ===== src/Isolation/Scope.antt =====
-- agent_sdk/isolation/scope.py. A ContextVar is a field of the context: `none` if it is not set.
use agent_sdk.Prelude.{◌≡◌, String, Option, none, some}
use agent_sdk.Types.{isolation_violation, ok, err}
use agent_sdk.Db.Exec.{World, Exec, ◌>>=◌}

-- A Token holds the value that the variable had before.
pub record Token : Type 0 where
  pub old : Option String

module _ {Db : Type 0} where
  unfoldable pub set_user_scope : String → World Db → Token × World Db
  set_user_scope user_id w = (record { old = w.scope }, record w { scope = some user_id })

  unfoldable pub get_user_scope : Exec Db String
  get_user_scope w = elim w.scope [
    | none ↦ (err isolation_violation, w)
    | some user_id ↦ (ok user_id, w)
  ]

  unfoldable pub clear_user_scope : Token → World Db → World Db
  clear_user_scope token w = record w { scope = token.old }

  -- `user_scope`: set the scope, run the body, and reset the scope however the body ends.
  unfoldable pub user_scope : {A : Type 0} → String → Exec Db A → Exec Db A
  unfolding set_user_scope clear_user_scope
  user_scope user_id body w =
      let (token, inside) = set_user_scope user_id w in
      let (r, after) = body inside in (r, clear_user_scope token after)

module _ {Db A : Type 0} (f : String → Exec Db A) (u : String) where
  -- In the scope of a user, an action that asks for the user goes on with that user.
  pub bind-get_user_scope : (w : World Db) → w.scope ≡ some u → (get_user_scope >>= f) w ≡ f u w
  unfolding get_user_scope ◌>>=◌
  bind-get_user_scope w h = rw h
