-- ===== src/Db/Exec.antt =====
-- Coroutines that use the database. Their state is the database, the user scope of the current
-- context, and how often uuid4 and the clock have been read. What was written before an exception
-- stays written, so the state comes back beside the error too.
pub mod Ensures
pub mod Returns
pub mod Rows
use agent_sdk.Prelude.{ap, ◌≡◌, refl, ℕ, suc, String, Option, none, some, List, [], ◌∷◌}
use agent_sdk.Types.{Error, other, Result, ok, err}
use agent_sdk.Db.Sql.{Value, Row, Statement}
use agent_sdk.Db.Backend.{Backend}

pub record World (Db : Type 0) : Type 0 where
  pub db : Db
  pub scope : Option String
  pub reads : ℕ

abbrev pub Exec : Type 0 → Type 0 → Type 0
Exec Db A = World Db → Result A × World Db

module _ {Db A : Type 0} where
  unfoldable pub pure : A → Exec Db A
  pure a w = (ok a, w)

  unfoldable pub raise : Error → Exec Db A
  raise e w = (err e, w)

module _ {Db A B : Type 0} where
  abbrev pub continue : Result A → (A → Exec Db B) → Exec Db B
  continue (ok a) f w = f a w
  continue (err e) f w = (err e, w)

  infixl 5 ◌>>=◌ ◌>>◌
  unfoldable pub ◌>>=◌ : Exec Db A → (A → Exec Db B) → Exec Db B
  unfolding pure raise
  ◌>>=◌ m f w = let (r, w') = m w in continue r f w'

  abbrev pub ◌>>◌ : Exec Db A → Exec Db B → Exec Db B
  m >> n = m >>= λ _. n

module _ {Db A B : Type 0} (f : A → Exec Db B) where
  continue-ok : (r : Result A) (w : World Db) {a : A} → r ≡ ok a → continue r f w ≡ f a w
  continue-ok r w h = rw h

  pub bind-ok : (m : Exec Db A) (w : World Db) {a : A} → (m w).0 ≡ ok a → (m >>= f) w ≡ f a (m w).1
  unfolding ◌>>=◌
  bind-ok m w h = continue-ok (m w).0 (m w).1 h

  pub bind-err :
      (m : Exec Db A) (w v : World Db) (e : Error) → m w ≡ (err e, v) → (m >>= f) w ≡ (err e, v)
  unfolding ◌>>=◌
  bind-err m w v e h = ap (λ x. continue x.0 f x.1) h

abbrev pub first : List Row → Option Row
first [] = none
first (r ∷ rs) = some r

module _ {Db : Type 0} (E : Backend Db) where
  unfoldable pub uuid4 : Exec Db String
  uuid4 w = (ok (E.uuid4 w.reads), record w { reads = suc w.reads })

  unfoldable pub now : Exec Db String
  now w = (ok (E.now w.reads), record w { reads = suc w.reads })

  -- DatabaseConnection.execute
  unfoldable pub execute : Statement → List Value → Exec Db (Unit {0})
  execute s ps w = elim (E.execute s ps w.db) [
    | none ↦ (err (other "sqlite3.Error"), w)
    | some d ↦ (ok tt, record w { db = d })
  ]

  -- DatabaseConnection.fetch_all
  unfoldable pub fetch_all : Statement → List Value → Exec Db (List Row)
  fetch_all s ps w = (ok (E.fetch_all s ps w.db), w)

  -- DatabaseConnection.fetch_one
  unfoldable pub fetch_one : Statement → List Value → Exec Db (Option Row)
  fetch_one s ps w = (ok (first (E.fetch_all s ps w.db)), w)

  -- `sql, params = self._qb.…(…)`, and then the database call on them.
  unfoldable pub execute_built : Exec Db (Statement × List Value) → Exec Db (Unit {0})
  execute_built build = do built ← build; execute built.0 built.1

  unfoldable pub fetch_all_built : Exec Db (Statement × List Value) → Exec Db (List Row)
  fetch_all_built build = do built ← build; fetch_all built.0 built.1

  unfoldable pub fetch_one_built : Exec Db (Statement × List Value) → Exec Db (Option Row)
  fetch_one_built build = do built ← build; fetch_one built.0 built.1
