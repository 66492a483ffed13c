-- ===== src/Core/Sound/Writes.antt =====
-- Statements that keep every row readable.
use agent_sdk.Prelude.{
  String, ◌≡◌, sym, ap, true, Option, some, List, [], ◌∷◌, ◌++◌, map, str_eq, str_eq→eq,
  str_eq_refl, if◌then◌else◌, All, Bool-cases, inl, inr,
}
use mathlib.Core.Path.{subst}
use mathlib.Core.List.{Mem, mem-append_right, mem-cons_self}
use agent_sdk.Prelude.Dict
use agent_sdk.Prelude.Dict.{Dict, get, put, get-put, get-update-none}
use agent_sdk.Types.{ok}
use agent_sdk.Db.Sql
use agent_sdk.Db.Sql.{Value, str, int, Row, Cond, Statement, satisfies, written, bind}
use agent_sdk.Db.Backend.{Backend}
use agent_sdk.Db.Exec.{World, Exec, execute, execute_built, ◌>>=◌}
use agent_sdk.Db.Exec.Returns.{Returns}
use agent_sdk.Isolation.Filter
use agent_sdk.Isolation.Filter.Build
use agent_sdk.Isolation.Filter.Bound.{bind-insert, bind-update}
use agent_sdk.Isolation.Confined.{built_for}
use agent_sdk.Core.Sound.{is_sound, AllSound}

All-append :
    {A : Type 0} (P : A → Type 0) (xs : List A) (x : A) → All P xs → P x → All P (xs ++ x ∷ [])
All-append P [] x h p = (p, tt)
All-append P (y ∷ xs) x (q, h) p = (q, All-append P xs x h p)

All-map :
    {A : Type 0} (P : A → Type 0) (f : A → A) (xs : List A)
    → ((x : A) → P x → P (f x))
    → All P xs
    → All P (map f xs)
All-map P f [] k h = tt
All-map P f (x ∷ xs) k (q, h) = (k x q, All-map P f xs k h)

pub written-insert :
    (table : String) (row : Row) (tables : String → List Row)
    → AllSound tables
    → is_sound table row ≡ true
    → AllSound (written (Sql.Bound.insert table row) tables)
unfolding written
written-insert table row tables h s t = elim (Bool-cases (str_eq table t)) [
  | inl e ↦ rw e (
      All-append (λ r. is_sound t r ≡ true) (tables t) row (h t)
        (subst (λ u. is_sound u row ≡ true) (str_eq→eq table t e) s))
  | inr e ↦ rw e (h t)
]

pub written-update :
    (table : String) (set_ : Row) (ws : List (Cond × Value)) (tables : String → List Row)
    → AllSound tables
    → ((r : Row) → is_sound table r ≡ true → is_sound table (Dict.update r set_) ≡ true)
    → AllSound (written (Sql.Bound.update table set_ ws) tables)
unfolding written
written-update table set_ ws tables h keeps t = elim (Bool-cases (str_eq table t)) [
  | inr e ↦ rw e (h t)
  | inl e ↦
      let keeps_t =
        subst (λ u. (r : Row) → is_sound u r ≡ true → is_sound u (Dict.update r set_) ≡ true)
          (str_eq→eq table t e) keeps in
      rw e
        (All-map (λ r. is_sound t r ≡ true) _ (tables t) (λ r s. changed r s (keeps_t r s)) (h t))
]
  where
    changed :
        (r : Row)
        → is_sound t r ≡ true
        → is_sound t (Dict.update r set_) ≡ true
        → is_sound t (if satisfies ws r then Dict.update r set_ else r) ≡ true
    changed r s k = elim (Bool-cases (satisfies ws r)) [ inl e ↦ rw e k | inr e ↦ rw e s ]

inserted :
    (table : String) (row : Row) (tables : String → List Row)
    → Mem row (written (Sql.Bound.insert table row) tables table)
unfolding written
inserted table row tables = rw (str_eq_refl table) (mem-append_right (tables table) mem-cons_self)

-- The database accepts every statement whose parameters fit: no constraint fails, no file is
-- locked.
pub record Accepts {Db : Type 0} (E : Backend Db) : Type 0 where
  pub accepts :
      (s : Statement) (ps : List Value) (d : Db) (b : Sql.Bound)
      → bind s ps ≡ some b
      → (e : Db) × (E.execute s ps d ≡ some e)

module _ {Db : Type 0} (E : Backend Db) (u : String) where
  -- The user is in scope, and the rows can be read back.
  pub record Sound (w : World Db) : Type 0 where
    pub tables : AllSound (E.rows w.db)
    pub scoped : w.scope ≡ some u

  execute-ok :
      (s : Statement) (ps : List Value) (w : World Db) (e : Db)
      → E.execute s ps w.db ≡ some e
      → execute E s ps w ≡ (ok tt, record w { db = e })
  unfolding execute
  execute-ok s ps w e h = rw (execute, h)

  pub sound_after :
      (s : Statement) (ps : List Value) (b : Sql.Bound) (d e : Db)
      → bind s ps ≡ some b
      → E.execute s ps d ≡ some e
      → AllSound (written b (E.rows d))
      → AllSound (E.rows e)
  sound_after s ps b d e bound h k t =
      subst (All (λ r. is_sound t r ≡ true)) (sym (E.rows-execute s ps d e b t bound h)) (k t)

  execute_built-ok :
      (build : Exec Db (Statement × List Value)) (q : Statement × List Value) (w : World Db)
      (e : Db)
      → build w ≡ (ok q, w)
      → E.execute q.0 q.1 w.db ≡ some e
      → execute_built E build w ≡ (ok tt, record w { db = e })
  unfolding execute_built ◌>>=◌
  execute_built-ok build q w e h k = rw h (execute-ok q.0 q.1 w e k)

  module _ (acc : Accepts E) where
    pub returns-execute :
        {Post : Unit {0} → World Db → Type 0} (s : Statement) (ps : List Value) (b : Sql.Bound)
        → bind s ps ≡ some b
        → ((w : World Db) (e : Db)
            → Sound w
            → E.execute s ps w.db ≡ some e
            → Post tt (record w { db = e }))
        → Returns Sound (execute E s ps) Post
    returns-execute {Post} s ps b bound k = record {
      at = λ w v.
          let (e, h) = acc.accepts s ps w.db b bound in
          (tt, ap (λ x. x.0) (execute-ok s ps w e h), rw (execute-ok s ps w e h) (k w e v h));
    }

    returns-built :
        {Post : Unit {0} → World Db → Type 0} (build : Exec Db (Statement × List Value))
        (q : Statement × List Value) (b : Sql.Bound)
        → ((w : World Db) → w.scope ≡ some u → build w ≡ (ok q, w))
        → bind q.0 q.1 ≡ some b
        → ((w : World Db) (e : Db)
            → Sound w
            → E.execute q.0 q.1 w.db ≡ some e
            → Post tt (record w { db = e }))
        → Returns Sound (execute_built E build) Post
    returns-built {Post} build q b built bound k = record {
      at = λ w v.
          let (e, h) = acc.accepts q.0 q.1 w.db b bound in
          let run = execute_built-ok build q w e (built w v.scoped) h in
          (tt, ap (λ x. x.0) run, rw run (k w e v h));
    }

    -- An INSERT of a row that can be read back.
    pub returns-insert :
        (table : String) (row : Dict Value)
        → is_sound table (put "user_id" (str u) row) ≡ true
        → Returns Sound
            (execute_built E (Filter.insert table row))
            (λ _ w. Sound w × Mem (put "user_id" (str u) row) (E.rows w.db table))
    unfolding Filter.insert
    returns-insert table row s =
        let q = Build.insert u table row in
        let bound = bind-insert u table row in
        returns-built (Filter.insert table row) q _
          (λ w h. built_for u (λ v. Build.insert v table row) w h) bound
          (λ w e v h. (
            record {
              tables =
                  sound_after q.0 q.1 _ w.db e bound h
                    (written-insert table _ (E.rows w.db) v.tables s);
              scoped = v.scoped;
            },
            rw (E.rows-execute q.0 q.1 w.db e _ table bound h) (inserted table _ (E.rows w.db)),
          ))

    -- An UPDATE that keeps rows readable.
    pub returns-update :
        (table : String) (set_ : Dict Value) (extra : Option (Dict Value))
        → ((r : Row) → is_sound table r ≡ true → is_sound table (Dict.update r set_) ≡ true)
        → Returns Sound (execute_built E (Filter.update table set_ extra)) (λ _. Sound)
    unfolding Filter.update
    returns-update table set_ extra keeps =
        let q = Build.update u table set_ extra in
        let bound = bind-update u table set_ extra in
        returns-built (Filter.update table set_ extra) q _
          (λ w h. built_for u (λ v. Build.update v table set_ extra) w h) bound
          (λ w e v h. record {
            tables =
                sound_after q.0 q.1 _ w.db e bound h
                  (written-update table set_ _ (E.rows w.db) v.tables keeps);
            scoped = v.scoped;
          })
