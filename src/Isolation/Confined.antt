-- ===== src/Isolation/Confined.antt =====
-- Actions that write no other user's rows, one rule for each way to build an action.
use agent_sdk.Prelude.{
  ℕ, String, ◌≡◌, refl, ap, ◌∙◌, Option, none, some, List, arith, Option-cases, inl, inr, str_eq,
  false,
}
use agent_sdk.Prelude.Dict.{Dict, get}
use agent_sdk.Types.{Error, Result, ok, err}
use agent_sdk.Db.Sql.{Value, Row, Order, Statement, bind, written, satisfies, keep, str}
use agent_sdk.Db.Sql
use agent_sdk.Db.Backend.{Backend}
use agent_sdk.Db.Exec
use agent_sdk.Db.Exec.{
  World, Exec, pure, raise, ◌>>=◌, uuid4, now, execute, fetch_all, fetch_one, execute_built,
  fetch_all_built, fetch_one_built,
}
use agent_sdk.Isolation.Scope.{get_user_scope}
use agent_sdk.Isolation.Filter
use agent_sdk.Isolation.Filter.Build
use agent_sdk.Isolation.Filter.Bound.{bind-insert, bind-update, bind-delete}
use agent_sdk.Isolation.Others.{
  others-insert, others-update, others-delete, Apart, others-delete_sessions,
}
use agent_sdk.Isolation.Filter.Owned.{others, Unnamed}

pub built_for :
    {Db A : Type 0} (u : String) (f : String → A) (w : World Db)
    → w.scope ≡ some u
    → (get_user_scope >>= λ v. pure (f v)) w ≡ (ok (f u), w)
unfolding get_user_scope pure ◌>>=◌
built_for u f w h = ground arith

module _ {Db : Type 0} (E : Backend Db) (u : String) where
  -- Both databases hold the same rows of the other users.
  pub record SameOthers (d e : Db) : Type 0 where
    pub at : (t : String) → others u (E.rows e t) ≡ others u (E.rows d t)

  -- Run for the user, the action keeps the scope and the rows of the others, whether it returns
  -- or raises.
  pub record Confined {A : Type 0} (m : Exec Db A) : Type 0 where
    pub keeps : (w : World Db) → w.scope ≡ some u → SameOthers w.db (m w).1.db
    pub scoped : (w : World Db) → w.scope ≡ some u → (m w).1.scope ≡ some u

  SameOthers-refl : (d : Db) → SameOthers d d
  SameOthers-refl d = record { at = λ t. refl }

  pub Confined-pure : {A : Type 0} (a : A) → Confined (pure a)
  unfolding pure
  Confined-pure a = record { keeps = λ w h. SameOthers-refl w.db; scoped = λ w h. h }

  pub Confined-raise : {A : Type 0} (e : Error) → Confined (raise {A = A} e)
  unfolding raise
  Confined-raise e = record { keeps = λ w h. SameOthers-refl w.db; scoped = λ w h. h }

  pub Confined-uuid4 : Confined (uuid4 E)
  unfolding uuid4
  Confined-uuid4 = record { keeps = λ w h. SameOthers-refl w.db; scoped = λ w h. h }

  pub Confined-now : Confined (now E)
  unfolding now
  Confined-now = record { keeps = λ w h. SameOthers-refl w.db; scoped = λ w h. h }

  pub Confined-fetch_all : (s : Statement) (ps : List Value) → Confined (fetch_all E s ps)
  unfolding fetch_all
  Confined-fetch_all s ps = record { keeps = λ w h. SameOthers-refl w.db; scoped = λ w h. h }

  pub Confined-fetch_one : (s : Statement) (ps : List Value) → Confined (fetch_one E s ps)
  unfolding fetch_one
  Confined-fetch_one s ps = record { keeps = λ w h. SameOthers-refl w.db; scoped = λ w h. h }

  continue-keeps :
      {A B : Type 0} (d : Db) (r : Result A) (f : A → Exec Db B) (w : World Db)
      → ((a : A) → Confined (f a))
      → w.scope ≡ some u
      → SameOthers d w.db
      → SameOthers d (Exec.continue r f w).1.db
  continue-keeps d (ok a) f w kf h s = record { at = λ t. ((kf a).keeps w h).at t ∙ s.at t }
  continue-keeps d (err e) f w kf h s = s

  continue-scoped :
      {A B : Type 0} (r : Result A) (f : A → Exec Db B) (w : World Db)
      → ((a : A) → Confined (f a))
      → w.scope ≡ some u
      → (Exec.continue r f w).1.scope ≡ some u
  continue-scoped (ok a) f w kf h = (kf a).scoped w h
  continue-scoped (err e) f w kf h = h

  pub Confined-bind :
      {A B : Type 0} (m : Exec Db A) (f : A → Exec Db B)
      → Confined m
      → ((a : A) → Confined (f a))
      → Confined (m >>= f)
  unfolding ◌>>=◌
  Confined-bind m f km kf = record {
    keeps = λ w h. continue-keeps w.db (m w).0 f (m w).1 kf (km.scoped w h) (km.keeps w h);
    scoped = λ w h. continue-scoped (m w).0 f (m w).1 kf (km.scoped w h);
  }

  -- A statement that leaves the others' rows alone, in whatever tables.
  Harmless : Statement × List Value → Type 0
  Harmless q =
      (b : Sql.Bound) × (bind q.0 q.1 ≡ some b)
      × ((tables : String → List Row) (t : String)
          → others u (written b tables t) ≡ others u (tables t))

  -- A statement that leaves the others' rows of this database alone.
  execute-others :
      (q : Statement × List Value) (b : Sql.Bound) (w : World Db)
      → bind q.0 q.1 ≡ some b
      → ((t : String) → others u (written b (E.rows w.db) t) ≡ others u (E.rows w.db t))
      → SameOthers w.db (execute E q.0 q.1 w).1.db
  unfolding execute
  execute-others q b w bound same = elim (Option-cases (E.execute q.0 q.1 w.db)) [
    | inl e ↦ rw (e, execute) (SameOthers-refl w.db)
    | inr (d, e) ↦
        rw (e, execute)
          (record { at = λ t. ap (others u) (E.rows-execute q.0 q.1 w.db d b t bound e) ∙ same t })
  ]

  execute-scope :
      (q : Statement × List Value) (w : World Db) → (execute E q.0 q.1 w).1.scope ≡ w.scope
  unfolding execute
  execute-scope q w = ground arith

  execute-keeps : (q : Statement × List Value) → Harmless q → Confined (execute E q.0 q.1)
  unfolding Harmless
  execute-keeps q (b, bound, same) = record {
    keeps = λ w h. execute-others q b w bound (same (E.rows w.db));
    scoped = λ w h. execute-scope q w ∙ h;
  }

  Confined-execute_built :
      (build : Exec Db (Statement × List Value)) (q : Statement × List Value)
      → ((w : World Db) → w.scope ≡ some u → build w ≡ (ok q, w))
      → Harmless q
      → Confined (execute_built E build)
  unfolding execute_built ◌>>=◌
  Confined-execute_built build q built harmless = record {
    keeps = λ w h. rw (built w h) ((execute-keeps q harmless).keeps w h);
    scoped = λ w h. rw (built w h) ((execute-keeps q harmless).scoped w h);
  }

  -- Deleting one's own sessions.
  pub delete_sessions-others :
      (extra : Option (Dict Value)) (w : World Db)
      → Unnamed extra
      → w.scope ≡ some u
      → Apart u (E.rows w.db)
      → SameOthers w.db (execute_built E (Filter.delete "sessions" extra) w).1.db
        × ((execute_built E (Filter.delete "sessions" extra) w).1.scope ≡ some u)
  unfolding execute_built ◌>>=◌ Filter.delete
  delete_sessions-others extra w h s apart =
      rw (built_for u (λ v. Build.delete v "sessions" extra) w s) (
        execute-others (Build.delete u "sessions" extra) _ w (bind-delete u "sessions" extra)
            (others-delete_sessions u extra h (E.rows w.db) apart),
        execute-scope (Build.delete u "sessions" extra) w ∙ s,
      )

  pub Confined-insert :
      (table : String) (row : Dict Value) → Confined (execute_built E (Filter.insert table row))
  unfolding Filter.insert Harmless
  Confined-insert table row =
      Confined-execute_built (Filter.insert table row) (Build.insert u table row)
        (λ w h. built_for u (λ v. Build.insert v table row) w h)
        (_, bind-insert u table row, λ tables t. others-insert u table t row tables)

  pub Confined-update :
      (table : String) (set_ : Dict Value) (extra : Option (Dict Value))
      → get "user_id" set_ ≡ none
      → Unnamed extra
      → Confined (execute_built E (Filter.update table set_ extra))
  unfolding Filter.update Harmless
  Confined-update table set_ extra named h =
      Confined-execute_built (Filter.update table set_ extra) (Build.update u table set_ extra)
        (λ w s. built_for u (λ v. Build.update v table set_ extra) w s)
        (
          _,
          bind-update u table set_ extra,
          λ tables t. others-update u table t set_ extra tables named h,
        )

  pub Confined-delete :
      (table : String) (extra : Option (Dict Value))
      → str_eq table "sessions" ≡ false
      → Unnamed extra
      → Confined (execute_built E (Filter.delete table extra))
  unfolding Filter.delete Harmless
  Confined-delete table extra other h =
      Confined-execute_built (Filter.delete table extra) (Build.delete u table extra)
        (λ w s. built_for u (λ v. Build.delete v table extra) w s)
        (_, bind-delete u table extra, λ tables t. others-delete u table t extra tables other h)

  Confined-get_user_scope : Confined get_user_scope
  unfolding get_user_scope
  Confined-get_user_scope = record {
    keeps = λ w h. rw (h, get_user_scope) (SameOthers-refl w.db);
    scoped = λ w h. rw (h, get_user_scope) h;
  }

  Confined-select :
      (table : String) (columns : List String) (extra : Option (Dict Value)) (o : Option Order)
      (n : Option ℕ)
      → Confined (Filter.select table columns extra o n)
  unfolding Filter.select
  Confined-select table columns extra o n =
      Confined-bind get_user_scope _ Confined-get_user_scope (λ v. Confined-pure _)

  pub Confined-select_all :
      (table : String) (columns : List String) (extra : Option (Dict Value)) (o : Option Order)
      (n : Option ℕ)
      → Confined (fetch_all_built E (Filter.select table columns extra o n))
  unfolding fetch_all_built
  Confined-select_all table columns extra o n =
      Confined-bind _ _ (Confined-select table columns extra o n) (λ q. Confined-fetch_all q.0 q.1)

  pub Confined-select_one :
      (table : String) (columns : List String) (extra : Option (Dict Value)) (o : Option Order)
      (n : Option ℕ)
      → Confined (fetch_one_built E (Filter.select table columns extra o n))
  unfolding fetch_one_built
  Confined-select_one table columns extra o n =
      Confined-bind _ _ (Confined-select table columns extra o n) (λ q. Confined-fetch_one q.0 q.1)

pub ruleset confined_rules = (
  Confined-pure, Confined-raise, Confined-uuid4, Confined-now, Confined-bind, Confined-insert,
  Confined-update, Confined-delete, Confined-select_all, Confined-select_one,
)
