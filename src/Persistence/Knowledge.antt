-- ===== src/Persistence/Knowledge.antt =====
-- agent_sdk/persistence/knowledge.py: `KnowledgeStore`, without `search` and `list_namespaces`. The
-- `user_id` of a call is not used. json.loads of the metadata is a parameter; the two times of an
-- entry are left out.
pub mod PutGet
pub mod Tests
use agent_sdk.Prelude.{String, Option, none, some}
use agent_sdk.Types.{Error, other, Result, ok, err}
use agent_sdk.Db.Sql.{Row}
use agent_sdk.Db.Backend.{Backend}
use agent_sdk.Db.Exec.{Exec, pure, ◌>>=◌}
use agent_sdk.Db.Repositories.KnowledgeRepo
use agent_sdk.Core.Session.{lift}
use agent_sdk.Persistence.Memory.{text_or}

pub record KnowledgeEntry : Type 0 where
  pub user_id : String
  pub namespace : String
  pub key : String
  pub content : String
  pub metadata : String

-- What `json.loads` makes of a text: nothing, a dict, or a value that is no dict.
pub data Loaded : Type 0 where
  invalid another : Loaded
  dict : String → Loaded

abbrev pub metadata_text : Loaded → Result String
metadata_text invalid = ok "{}"
metadata_text another = err (other "ValidationError")
metadata_text (dict t) = ok t

module _ {Db : Type 0} (E : Backend Db) (loads : String → Loaded) where
  unfoldable pub row_to_entry : Row → Exec Db KnowledgeEntry
  row_to_entry r = do
    raw ← lift (text_or "{}" "metadata" r)
    metadata ← lift (metadata_text (loads raw))
    user_id ← lift (text_or "" "user_id" r)
    namespace ← lift (text_or "" "namespace" r)
    key ← lift (text_or "" "key" r)
    content ← lift (text_or "" "content" r)
    pure (record {
      user_id = user_id;
      namespace = namespace;
      key = key;
      content = content;
      metadata = metadata;
    })

  unfoldable pub put : (user_id namespace key content : String) → Option String → Exec Db (Unit {0})
  put user_id namespace key content metadata = KnowledgeRepo.put E namespace key content metadata

  abbrev pub entry_of : Option Row → Exec Db (Option KnowledgeEntry)
  entry_of none = pure none
  entry_of (some r) = do e ← row_to_entry r; pure (some e)

  unfoldable pub get : (user_id namespace key : String) → Exec Db (Option KnowledgeEntry)
  get user_id namespace key = do row ← KnowledgeRepo.get E namespace key; entry_of row

  unfoldable pub delete : (user_id namespace key : String) → Exec Db (Unit {0})
  delete user_id namespace key = KnowledgeRepo.delete E namespace key
