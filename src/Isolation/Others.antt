-- ===== src/Isolation/Others.antt =====
-- What a scoped statement does to the rows of the other users.
use agent_sdk.Prelude.{
  String, ◌≡◌, ap, ◌∙◌, Option, none, List, [], ◌∷◌, ◌++◌, map, Bool, true, false, not,
  if◌then◌else◌, str_eq, str_eq_refl, Bool-cases, inl, inr, All,
}
use mathlib.Core.List.{append-nil}
use agent_sdk.Prelude.Dict
use agent_sdk.Prelude.Dict.{Dict, get, get-put_self, get-update-none}
use agent_sdk.Db.Sql.{Value, Row, written, satisfies, keep, str, any, same_value, cascaded}
use agent_sdk.Db.Tables.{cascades}
use agent_sdk.Db.Sql
use agent_sdk.Isolation.Filter.Build
use agent_sdk.Isolation.Filter.Bound.{equalities}
use agent_sdk.Isolation.Filter.Owned.{
  owned, others, own, keep-keep-All, any-keep, Unnamed, satisfies-owned, keep-append, keep-keep,
  keep-map,
}
use agent_sdk.Isolation.Validator.{is_owner}

others-append :
    (u : String) (xs : List Row) (x : Row)
    → owned u x ≡ true
    → others u (xs ++ x ∷ []) ≡ others u xs
unfolding keep
others-append u xs x e =
    keep-append (λ r. not (owned u r)) xs (x ∷ []) ∙ rw e (append-nil (others u xs))

owned-put : (u : String) (row : Dict Value) → owned u (Dict.put "user_id" (str u) row) ≡ true
unfolding is_owner
owned-put u row = rw (get-put_self, str_eq_refl)

pub others-insert :
    (u table t : String) (row : Dict Value) (tables : String → List Row)
    → others u (written (Sql.Bound.insert table (Dict.put "user_id" (str u) row)) tables t)
      ≡ others u (tables t)
unfolding written
others-insert u table t row tables = elim (Bool-cases (str_eq table t)) [
  | inl e ↦ rw e (others-append u (tables t) (Dict.put "user_id" (str u) row) (owned-put u row))
  | inr e ↦ rw e
]

module _ (u : String) (extra : Option (Dict Value)) (h : Unnamed extra) where
  abbrev hit : Row → Bool
  hit = satisfies (equalities (Build.conditions u extra))

  hit-others : (r : Row) → not (owned u r) ≡ true → hit r ≡ false
  hit-others r o = elim (Bool-cases (hit r)) [
    | inl s ↦ cc (satisfies-owned u extra r h s, o)
    | inr s ↦ s
  ]

  module _ (set_ : Dict Value) (named : get "user_id" set_ ≡ none) where
    abbrev change : Row → Row
    change r = if hit r then Dict.update r set_ else r

    owned-change : (r : Row) → owned u (change r) ≡ owned u r
    owned-change r = elim (Bool-cases (hit r)) [
      | inl s ↦ rw s (ap (is_owner u) (get-update-none "user_id" r set_ named))
      | inr s ↦ rw s
    ]

    others-map : (rs : List Row) → others u (map change rs) ≡ others u rs
    others-map rs =
        keep-map (λ r. not (owned u r)) change rs (λ r o. rw (hit-others r o))
          λ r o. rw (owned-change r) o

pub others-update :
    (u table t : String) (set_ : Dict Value) (extra : Option (Dict Value))
    (tables : String → List Row)
    → get "user_id" set_ ≡ none
    → Unnamed extra
    → others u
        (written (Sql.Bound.update table set_ (equalities (Build.conditions u extra))) tables t)
      ≡ others u (tables t)
unfolding written
others-update u table t set_ extra tables named h = elim (Bool-cases (str_eq table t)) [
  | inl e ↦ rw e (others-map u extra h set_ named (tables t))
  | inr e ↦ rw e
]

keep-others :
    (u : String) (extra : Option (Dict Value)) (h : Unnamed extra) (rs : List Row)
    → others u (keep (λ r. not (hit u extra h r)) rs) ≡ others u rs
keep-others u extra h rs =
    keep-keep (λ r. not (owned u r)) (λ r. not (hit u extra h r)) rs
      (λ r o. ap not (hit-others u extra h r o))

pub others-delete :
    (u table t : String) (extra : Option (Dict Value)) (tables : String → List Row)
    → str_eq table "sessions" ≡ false
    → Unnamed extra
    → others u (written (Sql.Bound.delete table (equalities (Build.conditions u extra))) tables t)
      ≡ others u (tables t)
unfolding written
others-delete u table t extra tables other h = elim (Bool-cases (str_eq table t)) [
  | inl e ↦ rw e (keep-others u extra h (tables t))
  | inr e ↦ rw (e, other)
]

-- No row of another user refers to a session of the user, in the tables whose rows go with their
-- session.
unfoldable pub Apart : String → (String → List Row) → Type 0
Apart u tables =
    (t : String)
    → cascades t ≡ true
    → All
        (λ r.
          not (owned u r) ≡ true
          → any (same_value "session_id" "id" r) (own u (tables "sessions")) ≡ false)
        (tables t)

module _ (u : String) (extra : Option (Dict Value)) (h : Unnamed extra) (tables : String → List Row)
    (apart : Apart u tables) where
  cascaded-others :
      (t : String)
      → others u (cascaded t (keep (hit u extra h) (tables "sessions")) (tables t))
        ≡ others u (tables t)
  unfolding cascaded Apart
  cascaded-others t = elim (Bool-cases (cascades t)) [
    | inl e ↦ rw e (keep-keep-All (λ r. not (owned u r)) _ (tables t) (kept (tables t) (apart t e)))
    | inr e ↦ rw e
  ]
    where
      kept :
          (rs : List Row)
          → All
              (λ r.
                not (owned u r) ≡ true
                → any (same_value "session_id" "id" r) (own u (tables "sessions")) ≡ false)
              rs
          → All
              (λ r.
                not (owned u r) ≡ true
                → not (
                    any (same_value "session_id" "id" r) (keep (hit u extra h) (tables "sessions")))
                  ≡ true)
              rs
      kept [] k = tt
      kept (r ∷ rs) (k, ks) = (
        λ o. ap not (
            any-keep (same_value "session_id" "id" r) (owned u) (hit u extra h) (tables "sessions")
              (λ x. satisfies-owned u extra x h) (k o)),
        kept rs ks,
      )

  -- Deleting sessions of one's own leaves the rows of the others alone, if none of them refers to
  -- one of these sessions.
  pub others-delete_sessions :
      (t : String)
      → others u
          (written (Sql.Bound.delete "sessions" (equalities (Build.conditions u extra))) tables t)
        ≡ others u (tables t)
  unfolding written
  others-delete_sessions t = elim (Bool-cases (str_eq "sessions" t)) [
    | inl e ↦ rw e (keep-others u extra h (tables t))
    | inr e ↦ rw (e, str_eq_refl) (cascaded-others t)
  ]
