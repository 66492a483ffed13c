-- ===== src/Core/Sound/Rows.antt =====
-- The rows that the SDK writes can be read back, and the columns that it updates stay readable.
use agent_sdk.Prelude.{
  String, ◌≡◌, refl, ap, ◌∙◌, true, false, none, some, [], ◌∷◌, arith, str_eq, str_eq_refl,
}
use agent_sdk.Prelude.Dict
use agent_sdk.Prelude.Dict.{Dict, get, put, get-put, get-put_self, get-update-none}
use agent_sdk.Types.{SessionStatus}
use agent_sdk.Db.Sql.{Value, str, Row, satisfies, holds, sql_eq}
use agent_sdk.Db.Repositories.StepRepo.{StepFields, status_fields}
use agent_sdk.Db.Repositories.StepRepo.Fields.{Foreign, get-status_fields}
use agent_sdk.Isolation.Filter.Build
use agent_sdk.Core.Session.{status_value, parse_status}
use agent_sdk.Core.Sound.{is_sound, is_ok, is_status}
use agent_sdk.Isolation.Filter.Bound.{equalities}

parse_status-value : (s : SessionStatus) → is_ok (parse_status (status_value s)) ≡ true
unfolding parse_status status_value str_eq
parse_status-value SessionStatus.active = refl
parse_status-value SessionStatus.paused = refl
parse_status-value SessionStatus.completed = refl
parse_status-value SessionStatus.archived = refl

same_session :
    (r q : Row)
    → get "id" q ≡ get "id" r
    → get "user_id" q ≡ get "user_id" r
    → get "agent_name" q ≡ get "agent_name" r
    → is_status (get "status" q) ≡ true
    → is_sound "sessions" r ≡ true
    → is_sound "sessions" q ≡ true
unfolding is_sound str_eq
same_session r q i u n s h = rw (i, u, n) (ground (arith, s, h))

-- A status update of a session.
pub sound-status :
    (r : Row) (s : SessionStatus) (time : String)
    → is_sound "sessions" r ≡ true
    → is_sound "sessions"
        (Dict.update r (("status", str (status_value s)) ∷ ("updated_at", str time) ∷ []))
      ≡ true
unfolding Dict.update get str_eq
sound-status r s time h =
    same_session r (Dict.update r set_) (kept "id" refl) (kept "user_id" refl)
      (kept "agent_name" refl) (ap is_status new ∙ parse_status-value s) h
  where
    set_ : Dict Value
    set_ = ("status", str (status_value s)) ∷ ("updated_at", str time) ∷ []

    kept : (k : String) → get k set_ ≡ none → get k (Dict.update r set_) ≡ get k r
    kept k g = get-update-none k r set_ g

    new : get "status" (Dict.update r set_) ≡ some (str (status_value s))
    new =
        get-put "updated_at" "status" (str time) (put "status" (str (status_value s)) r)
        ∙ get-put_self "status" (str (status_value s)) r

same_step :
    (r q : Row)
    → get "id" q ≡ get "id" r
    → get "step_number" q ≡ get "step_number" r
    → is_sound "steps" r ≡ true
    → is_sound "steps" q ≡ true
unfolding is_sound str_eq
same_step r q i n h = rw (i, n) h

-- A status update of a step.
pub sound-status_fields :
    (r : Row) (status time : String) (f : StepFields)
    → is_sound "steps" r ≡ true
    → is_sound "steps" (Dict.update r (status_fields status time f)) ≡ true
unfolding str_eq
sound-status_fields r status time f h =
    let own : Foreign "id" = (refl, (refl, (refl, (refl, (refl, (refl, (refl, tt))))))) in
    let number : Foreign "step_number" =
      (refl, (refl, (refl, (refl, (refl, (refl, (refl, tt))))))) in
    same_step r _ (get-update-none "id" r _ (get-status_fields "id" status time f own))
      (get-update-none "step_number" r _ (get-status_fields "step_number" status time f number)) h

module _ (u column value : String) where
  -- A row with the user's name and a value is met by the query for this value.
  pub satisfies-column :
      (r : Row)
      → str_eq "user_id" column ≡ false
      → get "user_id" r ≡ some (str u)
      → get column r ≡ some (str value)
      → satisfies (equalities (Build.conditions u (some ((column, str value) ∷ [])))) r ≡ true
  unfolding satisfies holds sql_eq Build.conditions Dict.update Dict.put
  satisfies-column r other h k =
      rw (other, satisfies, holds, h, k, sql_eq, str_eq_refl u, str_eq_refl value) refl
