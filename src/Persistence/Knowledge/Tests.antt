-- ===== src/Persistence/Knowledge/Tests.antt =====
-- Alice puts an entry where one stands, and where another user has one.
use agent_sdk.Prelude.{String, ◌≡◌, refl, none, some, [], ◌∷◌, str_eq, if◌then◌else◌}
use agent_sdk.Types.{ok}
use agent_sdk.Db.Exec.{World}
use agent_sdk.Db.Reference.{Tables, reference}
use agent_sdk.Db.Repositories.KnowledgeRepo.{entry_row}
use agent_sdk.Persistence.Knowledge.{Loaded, dict, invalid, metadata_text, put}
use agent_sdk.Persistence.Knowledge.PutGet.{get-put}
use agent_sdk.Persistence.Knowledge

abbrev loads : String → Loaded
loads t = if str_eq t "{}" then dict "{}" else invalid

abbrev with_entry : World Tables
with_entry = record {
  db = λ t.
      entry_row "bob" "faq" "k1" "theirs" "{}" "then"
      ∷ entry_row "alice" "faq" "k1" "old" "{}" "then"
      ∷ [];
  scope = some "alice";
  reads = 0;
}

stored : (put reference loads "alice" "faq" "k1" "new" none with_entry).0 ≡ ok tt
unfolding put Knowledge.KnowledgeRepo.put agent_sdk.Db.Exec.◌>>=◌
    agent_sdk.Isolation.Scope.get_user_scope agent_sdk.Db.Exec.now agent_sdk.Db.Exec.execute
    reference
stored = refl

get-put_example :
    (Knowledge.get reference loads "alice" "faq" "k1"
      (put reference loads "alice" "faq" "k1" "new" none with_entry).1).0
    ≡ ok (
        some (record {
          user_id = "alice";
          namespace = "faq";
          key = "k1";
          content = "new";
          metadata = "{}";
        }))
unfolding str_eq agent_sdk.Db.Repositories.SessionRepo.or_else
get-put_example =
    get-put reference loads "alice" "faq" "k1" "new" "{}" "alice" none with_entry refl stored refl
