-- ===== src/Core/Sound.antt =====
-- Databases whose rows the SDK can read back: the columns that agent_sdk/core/session.py,
-- agent_sdk/core/agent.py and agent_sdk/persistence/history.py take from a row are there.
pub mod Writes
pub mod Rows
pub mod Operations
pub mod Messages
pub mod Reads
use agent_sdk.Prelude.{
  ℕ, String, ◌≡◌, refl, Bool, true, false, ◌&&◌, Option, none, some, List, [], ◌∷◌, arith, str_eq,
  if◌then◌else◌, All, Bool-cases, inl, inr,
}
use agent_sdk.Prelude.Dict.{get}
use agent_sdk.Types.{SessionStatus, MessageRole, Error, other, Result, ok, err}
use agent_sdk.Db.Sql.{Value, null, int, str, Row}
use agent_sdk.Persistence.History.{parse_role}
use agent_sdk.Core.Session.{parse_status, text_at, status_at}

abbrev pub is_ok : {A : Type 0} → Result A → Bool
is_ok (ok a) = true
is_ok (err e) = false

abbrev pub is_text : Option Value → Bool
is_text (some (str s)) = true
is_text _ = false

abbrev pub is_number : Option Value → Bool
is_number (some (int n)) = true
is_number _ = false

abbrev pub is_status : Option Value → Bool
is_status (some (str s)) = is_ok (parse_status s)
is_status _ = false

-- A row of a table has the columns that are read.
unfoldable pub is_sound : String → Row → Bool
is_sound t r =
    if str_eq t "sessions"
    then is_text (get "id" r)
      && is_text (get "user_id" r)
      && is_text (get "agent_name" r)
      && is_status (get "status" r)
    else if str_eq t "steps"
    then is_text (get "id" r) && is_number (get "step_number" r)
    else if str_eq t "messages"
    then is_ok (parse_role (get "role" r))
    else true

abbrev pub AllSound : (String → List Row) → Type 0
AllSound tables = (t : String) → All (λ r. is_sound t r ≡ true) (tables t)

is_text-at : (k : String) (r : Row) → is_text (get k r) ≡ true → (s : String) × (text_at k r ≡ ok s)
unfolding text_at
is_text-at k r h = value (get k r) h
  where
    value :
        (o : Option Value)
        → is_text o ≡ true
        → (s : String) × ((elim o [ some (str t) ↦ ok t | _ ↦ err (other "KeyError") ]) ≡ ok s)
    value none h = cc
    value (some null) h = cc
    value (some (int n)) h = cc
    value (some (str s)) h = (s, refl)

is_ok-cases : {A : Type 0} (r : Result A) → is_ok r ≡ true → (a : A) × (r ≡ ok a)
is_ok-cases (ok a) h = (a, refl)
is_ok-cases (err e) h = cc

is_status-at :
    (r : Row) → is_status (get "status" r) ≡ true → (s : SessionStatus) × (status_at r ≡ ok s)
unfolding status_at
is_status-at r h = value (get "status" r) h
  where
    value :
        (o : Option Value)
        → is_status o ≡ true
        → (s : SessionStatus) × ((elim o [
          | none ↦ ok SessionStatus.active
          | some (str t) ↦ parse_status t
          | some _ ↦ err (other "ValueError")
        ])
            ≡ ok s)
    value none h = cc
    value (some null) h = cc
    value (some (int n)) h = cc
    value (some (str s)) h = is_ok-cases (parse_status s) h

-- What can be read from a row of the sessions, of the steps and of the messages.
pub record SessionRead (r : Row) : Type 0 where
  pub id : String
  pub user_id : String
  pub agent_name : String
  pub status : SessionStatus
  pub id_eq : text_at "id" r ≡ ok id
  pub user_eq : text_at "user_id" r ≡ ok user_id
  pub name_eq : text_at "agent_name" r ≡ ok agent_name
  pub status_eq : status_at r ≡ ok status

and_true : (a b : Bool) → (a && b) ≡ true → (a ≡ true) × (b ≡ true)
and_true true true h = (refl, refl)
and_true true false h = cc
and_true false b h = cc

pub sound-session : (r : Row) → is_sound "sessions" r ≡ true → SessionRead r
unfolding is_sound str_eq
sound-session r h =
    let (three, s) = and_true _ (is_status (get "status" r)) h in
    let (two, n) = and_true _ (is_text (get "agent_name" r)) three in
    let (i, u) = and_true (is_text (get "id" r)) (is_text (get "user_id" r)) two in
    let (id, id_eq) = is_text-at "id" r i in
    let (user_id, user_eq) = is_text-at "user_id" r u in
    let (agent_name, name_eq) = is_text-at "agent_name" r n in
    let (status, status_eq) = is_status-at r s in
    record {
      id = id;
      user_id = user_id;
      agent_name = agent_name;
      status = status;
      id_eq = id_eq;
      user_eq = user_eq;
      name_eq = name_eq;
      status_eq = status_eq;
    }

pub sound-step-id : (r : Row) → is_sound "steps" r ≡ true → (s : String) × (text_at "id" r ≡ ok s)
unfolding is_sound str_eq
sound-step-id r h = is_text-at "id" r (and_true _ _ h).0

is_number-at : (o : Option Value) → is_number o ≡ true → (n : ℕ) × (o ≡ some (int n))
is_number-at none h = cc
is_number-at (some null) h = cc
is_number-at (some (int n)) h = (n, refl)
is_number-at (some (str s)) h = cc

pub sound-step-number :
    (r : Row) → is_sound "steps" r ≡ true → (n : ℕ) × (get "step_number" r ≡ some (int n))
unfolding is_sound str_eq
sound-step-number r h = is_number-at (get "step_number" r) (and_true _ _ h).1

pub sound-role :
    (r : Row)
    → is_sound "messages" r ≡ true
    → (m : MessageRole) × (parse_role (get "role" r) ≡ ok m)
unfolding is_sound str_eq
sound-role r h = is_ok-cases _ h
