-- ===== src/Db/Repositories/Calls/Tests.antt =====
-- Calls on the database in memory.
use agent_sdk.Prelude.{
  String, ◌≡◌, refl, none, some, List, [], ◌∷◌, str_eq, if◌then◌else◌, Bool-cases, inl, inr,
}
use agent_sdk.Db.Exec
use agent_sdk.Db.Sql
use agent_sdk.Db.Repositories.SessionRepo
use agent_sdk.Isolation.Filter
use agent_sdk.Isolation.Filter.Build
use agent_sdk.Isolation.Scope
use agent_sdk.Prelude.Dict
use agent_sdk.Prelude.Dict.{get}
use agent_sdk.Db.Tables.{cascades}
use agent_sdk.Isolation.Others.{Apart}
use agent_sdk.Isolation.Validator.{is_owner}
use agent_sdk.Db.Sql.{Row, str, keep, any, same_value}
use agent_sdk.Db.Exec.{World}
use agent_sdk.Db.Reference.{Tables, reference}
use agent_sdk.Isolation.Filter.Owned.{own}
use agent_sdk.Isolation.Confined.{SameOthers}
use agent_sdk.Db.Repositories.Calls.{
  Call, session, memory, SessionCall, MemoryCall, perform, interleave,
}
use agent_sdk.Db.Repositories.Calls.Confinement.{perform-others, interleave-rows}

abbrev of_alice : Row
of_alice = ("id", str "1") ∷ ("user_id", str "alice") ∷ []

abbrev start : World Tables
start = record {
  db = λ t. if str_eq t "sessions" then of_alice ∷ [] else [];
  scope = none;
  reads = 0;
}

abbrev calls : List (String × Call)
calls =
    ("bob", session (SessionCall.create "demo" none none))
    ∷ ("bob", session (SessionCall.update_status "1" "paused"))
    ∷ ("bill", memory (MemoryCall.delete "1"))
    ∷ []

interleave-rows_example :
    own "alice" ((interleave reference calls start).db "sessions") ≡ own "alice" (of_alice ∷ [])
unfolding reference str_eq
interleave-rows_example =
    interleave-rows reference "alice" calls start "sessions"
      ((λ e. cc, refl), ((λ e. cc, refl), ((λ e. cc, refl), tt)))

-- No row of Bob's is there, and so none refers to Alice's session.
start-Apart : Apart "bob" start.db
unfolding Apart cascades str_eq keep is_owner get same_value any
start-Apart t e = elim (Bool-cases (str_eq t "sessions")) [
  | inl s ↦ rw s ((λ o. refl), tt)
  | inr s ↦ rw s tt
]

perform-others_example :
    SameOthers reference "bob" start.db
      (perform reference
        (session (SessionCall.delete "1"))
        (record start { scope = some "bob" })).1.db
unfolding reference
perform-others_example =
    (perform-others reference "bob" (session (SessionCall.delete "1"))
      (record start { scope = some "bob" }) start-Apart refl).0

-- Bob has put a step on Alice's session: it goes with the session.
abbrev of_bob : Row
of_bob = ("id", str "2") ∷ ("session_id", str "1") ∷ ("user_id", str "bob") ∷ []

abbrev shared : World Tables
shared = record start {
  db = λ t.
      if str_eq t "sessions" then of_alice ∷ [] else if str_eq t "steps" then of_bob ∷ [] else [];
  scope = some "alice";
}

cascade_crosses :
    own "bob" ((perform reference (session (SessionCall.delete "1")) shared).1.db "steps") ≡ []
unfolding str_eq keep perform SessionRepo.delete Exec.execute_built Exec.◌>>=◌ Filter.delete
    Scope.get_user_scope Exec.execute reference Build.delete Dict.update Dict.put cascades Sql.holds
    get
cascade_crosses = refl
