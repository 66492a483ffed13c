-- ===== src/Persistence/SessionStore/Owner.antt =====
-- Whose session `load` returns.
use agent_sdk.Prelude.{
  String, ◌≡◌, refl, sym, ◌∙◌, true, false, Option, none, some, [], ◌∷◌, str_eq, str_eq→eq,
}
use agent_sdk.Prelude.Dict.{get}
use agent_sdk.Types.{Error, Result, ok, err}
use agent_sdk.Db.Sql.{Value, null, int, str, Row, holds, eq, sql_eq}
use agent_sdk.Db.Backend.{Backend}
use agent_sdk.Db.Exec.{World, first, ◌>>=◌}
use agent_sdk.Db.Exec.Ensures.{Ensures, Ensures-pure, Ensures-raise, Ensures-then, Ensures-bind}
use agent_sdk.Db.Repositories.SessionRepo
use agent_sdk.Prelude.Dict
use agent_sdk.Isolation.Filter.Build
use agent_sdk.Isolation.Validator.{is_owner}
use agent_sdk.Isolation.Filter.Owned.{owned, satisfies-get}
use agent_sdk.Isolation.Reads.{selected, fetch_one-selected, mem-first, mem-selected}
use agent_sdk.Core.Session
use agent_sdk.Core.Session.{Session, text_at, lift}
use agent_sdk.Persistence.SessionStore.{loaded, load}

lift-Ensures : {Db A : Type 0} (r : Result A) → Ensures {Db = Db} (λ a. r ≡ ok a) (lift r)
unfolding lift
lift-Ensures r = record { at = λ w a e. e }

text_at-eq : (k v t : String) (r : Row) → holds r (eq k) (str v) ≡ true → text_at k r ≡ ok t → t ≡ v
unfolding holds text_at sql_eq
text_at-eq k v t r h e = value (get k r) h e
  where
    value :
        (o : Option Value)
        → (elim o [ none ↦ false | some w ↦ sql_eq w (str v) ]) ≡ true
        → (elim o [ some (str s) ↦ ok s | _ ↦ err (Error.other "KeyError") ]) ≡ ok t
        → t ≡ v
    value none h e = cc
    value (some null) h e = cc
    value (some (int n)) h e = cc
    value (some (str s)) h e = let same : s ≡ t = cc in sym same ∙ str_eq→eq s v h

text_at-owned : (u t : String) (r : Row) → owned u r ≡ true → text_at "user_id" r ≡ ok t → t ≡ u
unfolding is_owner text_at
text_at-owned u t r h e = value (get "user_id" r) h e
  where
    value :
        (o : Option Value)
        → is_owner u o ≡ true
        → (elim o [ some (str s) ↦ ok s | _ ↦ err (Error.other "KeyError") ]) ≡ ok t
        → t ≡ u
    value none h e = cc
    value (some null) h e = cc
    value (some (int n)) h e = cc
    value (some (str s)) h e = let same : s ≡ t = cc in sym same ∙ str_eq→eq s u h

-- The session's id and user are read from the row.
abbrev ReadFrom : Row → Session → Type 0
ReadFrom r s = (text_at "id" r ≡ ok s.id) × (text_at "user_id" r ≡ ok s.user_id)

from_row-ReadFrom : {Db : Type 0} (r : Row) → Ensures {Db = Db} (ReadFrom r) (Session.from_row r)
unfolding Session.from_row
from_row-ReadFrom r = Ensures-bind _ _ _ (lift-Ensures (text_at "id" r)) λ id e.
    Ensures-bind _ _ _ (lift-Ensures (text_at "user_id" r))
      λ user_id f. Ensures-then _ _ _ λ name. Ensures-then _ _ _ λ status. Ensures-pure _ (e, f)

module _ {Db : Type 0} (E : Backend Db) (u session_id : String) where
  abbrev IsOwn : Session → Type 0
  IsOwn s = (s.user_id ≡ u) × (s.id ≡ session_id)

  loaded-IsOwn :
      (o : Option Row)
      → ((r : Row) → o ≡ some r → (owned u r ≡ true) × (holds r (eq "id") (str session_id) ≡ true))
      → Ensures IsOwn (loaded E o)
  unfolding loaded
  loaded-IsOwn none h = Ensures-raise _
  loaded-IsOwn (some r) h = record {
    at = λ w s e.
        let (id_of, user_of) = (from_row-ReadFrom r).at w s e in
        (
          text_at-owned u s.user_id r (h r refl).0 user_of,
          text_at-eq "id" session_id s.id r (h r refl).1 id_of,
        );
  }

  -- A session that `load` returns in the scope of a user is the one with the id asked for, and it
  -- belongs to that user: another user's session is not found.
  pub load-owned :
      (w : World Db) (s : Session)
      → w.scope ≡ some u
      → (load E session_id w).0 ≡ ok s
      → (s.user_id ≡ u) × (s.id ≡ session_id)
  unfolding load SessionRepo.get_by_id ◌>>=◌ get str_eq Build.conditions Dict.update Dict.put
  load-owned w s h e = (loaded-IsOwn row found).at w s (rw fetched at e)
    where
      row : Option Row
      row = first (selected E u "sessions" (some (("id", str session_id) ∷ [])) none none w.db)

      fetched : SessionRepo.get_by_id E session_id w ≡ (ok row, w)
      fetched = fetch_one-selected E u "sessions" (some (("id", str session_id) ∷ [])) none none w h

      found :
          (r : Row)
          → row ≡ some r
          → (owned u r ≡ true) × (holds r (eq "id") (str session_id) ≡ true)
      found r is =
          let (own, ok_where, there) =
            mem-selected E u "sessions" (some (("id", str session_id) ∷ [])) none none w.db r refl
              (mem-first _ r is) in
          (
            own,
            satisfies-get (Build.conditions u (some (("id", str session_id) ∷ []))) "id"
                (str session_id) r refl ok_where,
          )
