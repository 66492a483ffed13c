-- ===== src/Persistence/SessionStore/Tests.antt =====
-- Alice's session in the database in memory.
use agent_sdk.Prelude
use agent_sdk.Prelude.{String, ◌≡◌, refl, Option, none, some, List, [], ◌∷◌}
use agent_sdk.Prelude.Dict
use agent_sdk.Types.{SessionStatus, ok}
use agent_sdk.Db.Sql
use agent_sdk.Db.Sql.{str}
use agent_sdk.Db.Exec
use agent_sdk.Db.Exec.{World, ◌>>=◌}
use agent_sdk.Db.Reference.{Tables, reference}
use agent_sdk.Db.Repositories.SessionRepo
use agent_sdk.Isolation.Filter
use agent_sdk.Isolation.Filter.Build
use agent_sdk.Isolation.Scope
use agent_sdk.Core.Session
use agent_sdk.Core.Session.{Session}
use agent_sdk.Persistence.SessionStore.{load}
use agent_sdk.Persistence.SessionStore.Owner.{load-owned}

abbrev start : World Tables
start = record {
  db = λ t.
      (("id", str "s1")
        ∷ ("user_id", str "alice")
        ∷ ("agent_name", str "demo")
        ∷ ("status", str "paused")
        ∷ [])
      ∷ [];
  scope = some "alice";
  reads = 0;
}

abbrev session : Session
session = record {
  id = "s1";
  user_id = "alice";
  agent_name = "demo";
  status = SessionStatus.paused;
}

is_loaded : (load reference "s1" start).0 ≡ ok session
unfolding load reference ◌>>=◌ SessionRepo.get_by_id Exec.fetch_one_built Filter.select
    Scope.get_user_scope Exec.fetch_one Build.select Dict.update Dict.put Prelude.str_eq Sql.holds
    Dict.get Session.from_row Session.parse_status Session.text_at
is_loaded = refl

load-owned_example : (session.user_id ≡ "alice") × (session.id ≡ "s1")
load-owned_example = load-owned reference "alice" "s1" start session refl is_loaded
