-- ===== src/Core/Agent/Stream/Yield.antt =====
-- Asynchronous generators that use the database: what one yields until it ends, and how it ends. The
-- events are those of StreamEvent in agent_sdk/core/message.py.
use agent_sdk.Prelude.{ℕ, String, Option, List, [], ◌∷◌, ◌++◌}
use agent_sdk.Types.{Error, Result, ok, err}
use agent_sdk.Db.Exec.{World, Exec}
use agent_sdk.Isolation.Scope.{set_user_scope, clear_user_scope}
use agent_sdk.Core.Message.{ToolResult}

-- One `tc_data` of a chunk. None and an absent name are `none`; an absent text of arguments is "{}",
-- and an absent id "".
pub record Delta : Type 0 where
  pub id : Option String
  pub name : Option String
  pub arguments : Option String

-- `done` has its output and its reason, if it has them.
pub data StreamEvent : Type 0 where
  step_start step_end : ℕ → StreamEvent
  token error : String → StreamEvent
  tool_call : List Delta → StreamEvent
  tool_result : ToolResult → StreamEvent
  done : Option String → Option String → StreamEvent

abbrev pub Gen : Type 0 → Type 0 → Type 0
Gen Db B = World Db → (List StreamEvent × Result B) × World Db

module _ {Db B : Type 0} where
  unfoldable pub pure : B → Gen Db B
  pure b w = (([], ok b), w)

  unfoldable pub raise : Error → Gen Db B
  raise e w = (([], err e), w)

  -- `await`, which yields nothing.
  unfoldable pub lift : Exec Db B → Gen Db B
  lift m w = let (r, w') = m w in (([], r), w')

  -- `set_user_scope(user_id)`, and the body in `try … finally: clear_user_scope(token)`.
  unfoldable pub in_scope : String → Gen Db B → Gen Db B
  unfolding set_user_scope clear_user_scope
  in_scope user_id body w =
      let (t, inside) = set_user_scope user_id w in
      let (r, after) = body inside in (r, clear_user_scope t after)

-- `yield`.
unfoldable pub emit : {Db : Type 0} → StreamEvent → Gen Db (Unit {0})
emit e w = ((e ∷ [], ok tt), w)

module _ {Db A B : Type 0} where
  unfoldable pub onward : List StreamEvent → Result A → (A → Gen Db B) → Gen Db B
  onward es (err e) f w = ((es, err e), w)
  onward es (ok a) f w = let ((fs, r), w') = f a w in ((es ++ fs, r), w')

  infixl 5 ◌>>=◌ ◌>>◌
  unfoldable pub ◌>>=◌ : Gen Db A → (A → Gen Db B) → Gen Db B
  unfolding onward
  ◌>>=◌ m f w = let ((es, r), w') = m w in onward es r f w'

  abbrev pub ◌>>◌ : Gen Db A → Gen Db B → Gen Db B
  m >> n = m >>= λ _. n
