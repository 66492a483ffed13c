-- ===== src/Governance/Audit/Tests.antt =====
-- Alice logs an action and finds it. She finds Bob's entries too, if she names him.
use agent_sdk.Prelude.{String, ◌≡◌, refl, Option, none, some, List, [], ◌∷◌, str_eq, if◌then◌else◌}
use agent_sdk.Types.{SessionStatus, ok}
use agent_sdk.Db.Exec.{World}
use agent_sdk.Db.Reference.{Tables, no_rows, reference}
use agent_sdk.Prelude.{All}
use agent_sdk.Governance.Audit.Owned.{query-Owned}
use agent_sdk.Db.Repositories.AuditRepo.{entry_row}
use agent_sdk.Core.Session.{Session}
use agent_sdk.Governance.Audit.{AuditEntry, LoadedDetails, dict, log, query}

abbrev loads : String → LoadedDetails
loads t = dict t

abbrev session : Session
session = record {
  id = "s1";
  user_id = "alice";
  agent_name = "helper";
  status = SessionStatus.active;
}

abbrev with_bob : World Tables
with_bob = record {
  db = λ t. entry_row "e0" "then" "bob" none "tool_call" "{}" ∷ [];
  scope = some "alice";
  reads = 0;
}

abbrev logged : World Tables
logged = (log reference loads session "approval" (some "{\"ok\": 1}") with_bob).1

abbrev own_entry : AuditEntry
own_entry = record {
  id = reference.uuid4 0;
  timestamp = reference.now 1;
  user_id = "alice";
  session_id = some "s1";
  action = "approval";
  details = "{\"ok\": 1}";
}

own_found : (query reference loads none none none 10 logged).0 ≡ ok (own_entry ∷ [])
unfolding query agent_sdk.Db.Exec.◌>>=◌ agent_sdk.Db.Repositories.AuditRepo.query
    agent_sdk.Db.Repositories.AuditRepo.asked agent_sdk.Isolation.Scope.get_user_scope log
    agent_sdk.Db.Repositories.AuditRepo.create agent_sdk.Db.Exec.uuid4 agent_sdk.Db.Exec.now
    agent_sdk.Db.Exec.execute reference agent_sdk.Db.Exec.fetch_all
    agent_sdk.Governance.Audit.to_entries str_eq agent_sdk.Db.Sql.holds agent_sdk.Prelude.Dict.get
    agent_sdk.Governance.Audit.row_to_entry agent_sdk.Core.Session.lift
    agent_sdk.Core.Session.text_at agent_sdk.Db.Exec.pure
    agent_sdk.Db.Repositories.SessionRepo.or_else agent_sdk.Governance.Audit.details_at
    agent_sdk.Persistence.Memory.optional_text agent_sdk.Db.Sql.sql_eq agent_sdk.Db.Sql.satisfies
    agent_sdk.Db.Sql.keep agent_sdk.Db.Sql.limit agent_sdk.Db.Reference.sort
own_found = refl

abbrev bobs_entry : AuditEntry
bobs_entry = record {
  id = "e0";
  timestamp = "then";
  user_id = "bob";
  session_id = none;
  action = "tool_call";
  details = "{}";
}

others_found : (query reference loads (some "bob") none none 10 logged).0 ≡ ok (bobs_entry ∷ [])
unfolding query agent_sdk.Db.Exec.◌>>=◌ agent_sdk.Db.Repositories.AuditRepo.query
    agent_sdk.Db.Repositories.AuditRepo.asked agent_sdk.Isolation.Scope.get_user_scope log
    agent_sdk.Db.Repositories.AuditRepo.create agent_sdk.Db.Exec.uuid4 agent_sdk.Db.Exec.now
    agent_sdk.Db.Exec.execute reference agent_sdk.Db.Exec.fetch_all
    agent_sdk.Governance.Audit.to_entries str_eq agent_sdk.Db.Sql.holds agent_sdk.Prelude.Dict.get
    agent_sdk.Governance.Audit.row_to_entry agent_sdk.Core.Session.lift
    agent_sdk.Core.Session.text_at agent_sdk.Db.Exec.pure
    agent_sdk.Db.Repositories.SessionRepo.or_else agent_sdk.Governance.Audit.details_at
    agent_sdk.Persistence.Memory.optional_text agent_sdk.Db.Sql.sql_eq agent_sdk.Db.Sql.satisfies
    agent_sdk.Db.Sql.keep agent_sdk.Db.Sql.limit agent_sdk.Db.Reference.sort
others_found = refl

query-Owned_example : All (λ e. e.user_id ≡ "bob") (bobs_entry ∷ [])
unfolding str_eq
query-Owned_example =
    query-Owned reference loads "bob" (some "bob") none none 10 logged (bobs_entry ∷ []) refl
      others_found
