-- ===== src/Durability/Idempotency/FirstWins.antt =====
-- The first result that is recorded under a key is the one that stays.
use mathlib.Core.Bool.{and-true, and-false, false≢true}
use mathlib.Core.List.{Perm}
use agent_sdk.Prelude.{
  String, ◌≡◌, refl, sym, ap, ◌∙◌, Bool, true, false, ◌&&◌, Option, none, some, List, [], ◌∷◌, ◌++◌,
  map, arith, length-perm, Bool-cases, inl, inr, str_eq, str_eq_refl,
}
use agent_sdk.Prelude.Dict.{get, keys, values}
use agent_sdk.Types.{ok}
use agent_sdk.Db.Tables.{primary_key}
use agent_sdk.Db.Sql
use agent_sdk.Db.Sql.{
  Value, str, Row, Cond, eq, Statement, bind, pair_up, satisfies, holds, sql_eq, keep, limit,
  project, any, same_key, same_value, added, written,
}
use agent_sdk.Db.Backend.{Backend}
use agent_sdk.Db.Exec.{World, execute, fetch_one, first, bind-ok}
use agent_sdk.Db.Exec.Rows.{execute-rows, execute-scope, fetch_one-rows}
use agent_sdk.Db.Keys.{sql_eq-sym, perm-one, keep-none, any-ext}
use agent_sdk.Isolation.Scope.{bind-get_user_scope}
use agent_sdk.Isolation.Filter.Owned.{keep-append, owned, holds-owned}
use agent_sdk.Durability.Idempotency.{
  Outcome, result_json, key_row, cached_text, cached, record_, check,
}

abbrev keys_table : String
keys_table = "idempotency_keys"

-- The row is recorded under the key, by whomever.
pub has_key : String → Row → Bool
has_key k r = elim (get "key" r) [ none ↦ false | some v ↦ sql_eq (str k) v ]

-- The conditions of `check`.
abbrev wanted : (key u : String) → List (Cond × Value)
wanted key u = (eq "key", str key) ∷ (eq "user_id", str u) ∷ []

same_key-has_key :
    (key session u result : String) (r : Row)
    → same_key ("key" ∷ []) (key_row key session u result) r ≡ has_key key r
unfolding same_key same_value has_key get str_eq
same_key-has_key key session u result r = and-true _

satisfies-has_key :
    (key u : String) (r : Row) → has_key key r ≡ false → satisfies (wanted key u) r ≡ false
unfolding satisfies holds has_key sql_eq
satisfies-has_key key u r h = missing (get "key" r) h
  where
    missing :
        (o : Option Value)
        → (elim o [ none ↦ false | some v ↦ sql_eq (str key) v ]) ≡ false
        → ((elim o [ none ↦ false | some v ↦ sql_eq v (str key) ])
            && ((elim (get "user_id" r) [ none ↦ false | some v ↦ sql_eq v (str u) ]) && true))
          ≡ false
    missing none k = refl
    missing (some v) k = rw (sql_eq-sym v (str key), k) refl

-- The row is the user's, and recorded under the key.
pub is_own : (key u : String) → Row → Bool
unfolding has_key
is_own key u r = has_key key r && owned u r

not_owned : (key u : String) (r : Row) → owned u r ≡ false → satisfies (wanted key u) r ≡ false
unfolding satisfies holds
not_owned key u r h =
    elim (Bool-cases (elim (get "user_id" r) [ none ↦ false | some w ↦ sql_eq w (str u) ])) [
      | inl e ↦ absurd (false≢true (sym h ∙ holds-owned u (get "user_id" r) e))
      | inr e ↦ rw e (and-false _)
    ]

satisfies-is_own :
    (key u : String) (r : Row) → is_own key u r ≡ false → satisfies (wanted key u) r ≡ false
unfolding is_own
satisfies-is_own key u r h = elim (Bool-cases (has_key key r)) [
  | inr e ↦ satisfies-has_key key u r e
  | inl e ↦ not_owned key u r (rw e at h)
]

perm-nil : (rs : List Row) → Perm rs [] → rs ≡ []
perm-nil [] p = refl
perm-nil (r ∷ rs) p = absurd (omega (arith, length-perm p))

module _ {Db : Type 0} (E : Backend Db) (loads : String → Option String) (u key : String) where
  abbrev rows_of : World Db → List Row
  rows_of w = E.rows w.db keys_table

  abbrev found_row : World Db → Option Row
  found_row w = first (
      map (project ("result" ∷ []))
        (limit none (E.sort none (keep (satisfies (wanted key u)) (rows_of w)))))

  check-rows :
      (w : World Db) → w.scope ≡ some u → check loads E key w ≡ (cached loads (found_row w), w)
  unfolding check bind pair_up
  check-rows w h =
      bind-get_user_scope _ u w h
      ∙ bind-ok _ _ w (ap (λ x. x.0) (found w))
      ∙ ap (λ v. (cached loads (found_row w), v)) (ap (λ x. x.1) (found w))
    where
      found :
          (v : World Db)
          → fetch_one E
              (Statement.select keys_table
                ("result" ∷ [])
                (eq "key" ∷ eq "user_id" ∷ [])
                none
                false)
              (str key ∷ str u ∷ [])
              v
            ≡ (ok (found_row v), v)
      found v = fetch_one-rows E _ _ v keys_table ("result" ∷ []) (wanted key u) none none refl

  module _ (result : Outcome) (session : String) (w : World Db) (scoped : w.scope ≡ some u)
      (recorded : (record_ loads E key result session w).0 ≡ ok tt) where
    abbrev new_row : Row
    new_row = key_row key session u (result_json result)

    abbrev after : World Db
    after = (record_ loads E key result session w).1

    abbrev statement : Statement
    statement = Statement.insert_or_ignore keys_table (keys new_row)

    ran : record_ loads E key result session w ≡ execute E statement (values new_row) w
    unfolding record_
    ran = bind-get_user_scope _ u w scoped

    record-rows : rows_of after ≡ added ("key" ∷ []) new_row (rows_of w)
    unfolding written bind pair_up primary_key str_eq
    record-rows =
        ap (λ x. rows_of x.1) ran
        ∙ execute-rows E statement (values new_row) w
            (Sql.Bound.insert_or_ignore keys_table new_row) refl
            (sym (ap (λ x. x.0) ran) ∙ recorded) keys_table

    record-scope : after.scope ≡ some u
    record-scope = ap (λ x. x.1.scope) ran ∙ execute-scope E statement (values new_row) w ∙ scoped

    taken-has_key : any (same_key ("key" ∷ []) new_row) (rows_of w) ≡ any (has_key key) (rows_of w)
    taken-has_key =
        any-ext _ (has_key key) (rows_of w) (same_key-has_key key session u (result_json result))

    satisfies-new : satisfies (wanted key u) new_row ≡ true
    unfolding satisfies holds get sql_eq str_eq
    satisfies-new = rw (str_eq_refl key, str_eq_refl u) refl

    -- With a free key, the new row is the only one that `check` wants.
    only-new :
        any (has_key key) (rows_of w) ≡ false
        → keep (satisfies (wanted key u)) (rows_of w ++ new_row ∷ []) ≡ new_row ∷ []
    unfolding keep
    only-new free =
        keep-append (satisfies (wanted key u)) (rows_of w) (new_row ∷ [])
        ∙ rw
            (
              keep-none (satisfies (wanted key u)) (has_key key) (rows_of w)
                  (satisfies-has_key key u) free,
              satisfies-new,
            )
            refl

    one-new : E.sort none (new_row ∷ []) ≡ new_row ∷ []
    one-new = perm-one (E.sort none (new_row ∷ [])) new_row (E.sort-perm none (new_row ∷ []))

    sort-none : E.sort none [] ≡ []
    sort-none = perm-nil (E.sort none []) (E.sort-perm none [])

    -- No row under the key is the user's own.
    others-only :
        any (is_own key u) (rows_of w) ≡ false → keep (satisfies (wanted key u)) (rows_of w) ≡ []
    others-only none_own =
        keep-none (satisfies (wanted key u)) (is_own key u) (rows_of w) (satisfies-is_own key u)
          none_own

    -- Where `record` succeeds, `check` finds this result if the key was free, and what it found
    -- before if anyone had recorded the key: the first result stays. If the key was recorded, but
    -- never by the user, then `check` finds nothing, before and after.
    pub check-record :
        (any (has_key key) (rows_of w) ≡ false
          → (check loads E key after).0 ≡ ok (some (cached_text loads (result_json result))))
        × (any (has_key key) (rows_of w) ≡ true
            → (check loads E key after).0 ≡ (check loads E key w).0)
        × (any (has_key key) (rows_of w) ≡ true
            → any (is_own key u) (rows_of w) ≡ false
            → ((check loads E key w).0 ≡ ok none) × ((check loads E key after).0 ≡ ok none))
    unfolding added limit cached project get str_eq
    check-record = (
      λ free.
          ap (λ x. x.0) (check-rows after record-scope)
          ∙ rw (record-rows, taken-has_key, free, only-new free, one-new) refl,
      λ taken.
          ap (λ x. x.0) (check-rows after record-scope)
          ∙ rw (record-rows, taken-has_key, taken) refl
          ∙ sym (ap (λ x. x.0) (check-rows w scoped)),
      λ taken none_own. (
        ap (λ x. x.0) (check-rows w scoped) ∙ rw (others-only none_own, sort-none) refl,
        ap (λ x. x.0) (check-rows after record-scope)
            ∙ rw (record-rows, taken-has_key, taken, others-only none_own, sort-none) refl,
      ),
    )
