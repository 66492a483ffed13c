-- ===== src/Core/Sound/Operations.antt =====
-- Operations of the repositories that a run calls, each of which returns.
use agent_sdk.Prelude.{
  ℕ, String, ◌≡◌, refl, true, Option, none, some, [], ◌∷◌, str_eq, Bool-cases, inl, inr,
}
use mathlib.Core.List.{Mem}
use agent_sdk.Prelude.Dict.{Dict, get, put}
use agent_sdk.Types.{SessionStatus, Result, ok}
use agent_sdk.Db.Sql.{Value, str, Row, desc}
use agent_sdk.Db.Backend.{Backend}
use agent_sdk.Db.Exec.{World, Exec, ◌>>◌, execute_built, fetch_one_built}
use agent_sdk.Db.Exec.Returns.{Returns, Returns-pure, Returns-bind, Returns-weaken}
use agent_sdk.Db.Repositories.SessionRepo
use agent_sdk.Db.Repositories.SessionRepo.{by}
use agent_sdk.Db.Repositories.StepRepo
use agent_sdk.Db.Repositories.StepRepo.{StepFields}
use agent_sdk.Isolation.Filter
use agent_sdk.Core.Session
use agent_sdk.Core.Session.{lift, status_value, parse_status}
use agent_sdk.Core.Sound.{is_sound, SessionRead, sound-session}
use agent_sdk.Core.Sound.Writes.{Accepts, Sound, returns-insert, returns-update}
use agent_sdk.Core.Sound.Reads.{
  Found, hits, returns-Found, returns-perhaps, returns-uuid4, returns-now,
}
use agent_sdk.Core.Sound.Rows.{satisfies-column, sound-status, sound-status_fields}

pub returns-lift :
    {Db A : Type 0} {Pre : World Db → Type 0} (r : Result A) (a : A)
    → r ≡ ok a
    → Returns Pre (lift r) (λ _. Pre)
unfolding lift
returns-lift r a e = record { at = λ w p. (a, e, p) }

module _ {Db A B : Type 0} where
  -- A value that is known to be there.
  pub returns-some :
      {Pre : World Db → Type 0} {P : A → Type 0} {Post : B → World Db → Type 0}
      (f : Option A → Exec Db B)
      → ((a : A) → P a → Returns Pre (f (some a)) Post)
      → (o : Option A) → Returns (λ w. Pre w × ((a : A) × (o ≡ some a) × P a)) (f o) Post
  returns-some f k o = record { at = λ w (p, (a, e, q)). rw e ((k a q).at w p) }

pub returns-from_row :
    {Db : Type 0} {Pre : World Db → Type 0} (r : Row)
    → SessionRead r
    → Returns Pre (Session.from_row r) (λ _. Pre)
unfolding Session.from_row
returns-from_row r k = Returns-bind _ _ (returns-lift _ _ k.id_eq) λ _.
    Returns-bind _ _ (returns-lift _ _ k.user_eq) λ _.
      Returns-bind _ _ (returns-lift _ _ k.name_eq)
        λ _. Returns-bind _ _ (returns-lift _ _ k.status_eq) λ _. Returns-pure _ (λ w p. p)

module _ {Db : Type 0} (E : Backend Db) (u : String) (acc : Accepts E) where
  abbrev with_id : String → Option (Dict Value)
  with_id id = some (("id", str id) ∷ [])

  -- An INSERT, and then the SELECT of the new row by its id.
  returns-stored :
      (table : String) (row : Dict Value) (id : String)
      → is_sound table (put "user_id" (str u) row) ≡ true
      → hits E u (with_id id) (put "user_id" (str u) row) ≡ true
      → Returns
          (Sound E u)
          (execute_built E (Filter.insert table row)
            >> fetch_one_built E (Filter.select table ("*" ∷ []) (with_id id) none none))
          (λ o w.
            (Sound E u w × Mem (put "user_id" (str u) row) (E.rows w.db table))
            × Found E u table (with_id id) o)
  unfolding get str_eq
  returns-stored table row id s hit = Returns-bind _ _ (returns-insert E u acc table row s) λ _.
      returns-Found E u table (with_id id) refl none none tt
        (λ w p. (p.0, (put "user_id" (str u) row, p.1, hit)))

  pub returns-create_session :
      (name : String)
      → Returns
          (Sound E u)
          (SessionRepo.create E name none none)
          (λ o w. Sound E u w × ((r : Row) × (o ≡ some r) × SessionRead r))
  unfolding SessionRepo.create SessionRepo.new_id SessionRepo.get_by_id SessionRepo.or_else put get
      str_eq is_sound parse_status
  returns-create_session name = Returns-bind _ _ (returns-uuid4 E u) λ sid.
      Returns-bind _ _ (returns-now E u) λ time.
        Returns-weaken
          (returns-stored "sessions" _ sid refl (satisfies-column u "id" sid _ refl refl refl))
          (λ w p. p) (λ o w (p, f). (p.0, (f.row, f.is_row, sound-session f.row f.sound)))

  pub returns-session_status :
      (session_id : String) (s : SessionStatus)
      → Returns
          (Sound E u)
          (SessionRepo.update_status E session_id (status_value s))
          (λ _. Sound E u)
  unfolding SessionRepo.update_status
  returns-session_status session_id s = Returns-bind _ _ (returns-now E u) λ time.
      returns-update E u acc "sessions" _ (with_id session_id) (λ r h. sound-status r s time h)

  pub returns-step_status :
      (step_id status : String) (f : StepFields)
      → Returns (Sound E u) (StepRepo.update_status E step_id status f) (λ _. Sound E u)
  unfolding StepRepo.update_status
  returns-step_status step_id status f = Returns-bind _ _ (returns-now E u) λ time.
      returns-update E u acc "steps" _ (with_id step_id)
        (λ r h. sound-status_fields r status time f h)

  returns-new_id :
      (key : String) → Returns (Sound E u) (SessionRepo.new_id E (some key)) (λ _. Sound E u)
  unfolding SessionRepo.new_id
  returns-new_id key = elim (Bool-cases (str_eq key "")) [
    | inl e ↦ rw e (returns-uuid4 E u)
    | inr e ↦ rw e (Returns-pure key (λ w v. v))
  ]

  -- The session has a step of the user's.
  pub record HasStep (session_id : String) (w : World Db) : Type 0 where
    pub row : Row
    pub there : Mem row (E.rows w.db "steps")
    pub hit : hits E u (some (("session_id", str session_id) ∷ [])) row ≡ true

  pub returns-create_step :
      (session_id : String) (n : ℕ) (key : String)
      → Returns (Sound E u) (StepRepo.create E session_id n (some key) none) (λ o w.
        (Sound E u w × HasStep session_id w)
        × ((r : Row) × (o ≡ some r) × (is_sound "steps" r ≡ true)))
  unfolding StepRepo.create StepRepo.get_by_id SessionRepo.or_else put get str_eq is_sound
  returns-create_step session_id n key = Returns-bind _ _ (returns-uuid4 E u) λ id.
      Returns-bind _ _ (returns-now E u) λ time. Returns-bind _ _ (returns-new_id key) λ idem.
        Returns-weaken
          (returns-stored "steps" _ id refl (satisfies-column u "id" id _ refl refl refl))
          (λ w p. p)
          (λ o w (p, f). (
            (
              p.0,
              record {
                row = _;
                there = p.1;
                hit = satisfies-column u "session_id" session_id _ refl refl refl;
              },
            ),
            (f.row, f.is_row, f.sound),
          ))

  pub returns-latest :
      (session_id : String)
      → Returns
          (λ w. Sound E u w × HasStep session_id w)
          (StepRepo.get_latest_by_session E session_id)
          (λ o w. Sound E u w × ((r : Row) × (o ≡ some r) × (is_sound "steps" r ≡ true)))
  unfolding StepRepo.get_latest_by_session get str_eq
  returns-latest session_id =
      Returns-weaken
        (returns-Found E u "steps" (some (("session_id", str session_id) ∷ [])) refl
          (by "step_number" desc) (some 1) tt (λ w (v, s). (v, (s.row, s.there, s.hit))))
        (λ w p. p) (λ o w (p, f). (p.0, (f.row, f.is_row, f.sound)))

  pub returns-latest_perhaps :
      (session_id : String)
      → Returns
          (Sound E u)
          (StepRepo.get_latest_by_session E session_id)
          (λ o w. Sound E u w × ((r : Row) → o ≡ some r → is_sound "steps" r ≡ true))
  unfolding StepRepo.get_latest_by_session get str_eq
  returns-latest_perhaps session_id =
      returns-perhaps E u "steps" (some (("session_id", str session_id) ∷ [])) refl
        (by "step_number" desc) (some 1)
