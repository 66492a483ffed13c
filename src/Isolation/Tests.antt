-- ===== src/Isolation/Tests.antt =====
-- Two users' rows in the database in memory.
use agent_sdk.Prelude.{str_eq, ◌≡◌, refl, true, some, [], ◌∷◌}
use agent_sdk.Prelude.Dict
use agent_sdk.Prelude.Dict.{get}
use agent_sdk.Db.Sql.{str, Row, satisfies, holds}
use agent_sdk.Isolation.Filter.Build
use agent_sdk.Isolation.Filter.Bound.{equalities}

abbrev of_bob : Row
of_bob = ("id", str "2") ∷ ("user_id", str "bob") ∷ []

-- Bob's row meets the conditions of a statement built for Alice that names Bob.
bob_named :
    satisfies (equalities (Build.conditions "alice" (some (("user_id", str "bob") ∷ [])))) of_bob
    ≡ true
unfolding get satisfies Build.conditions Dict.update Dict.put str_eq holds
bob_named = refl
