-- ===== src/Persistence/Memory.antt =====
-- agent_sdk/persistence/memory.py: `MemoryManager`, without `search_long_term`. The context gives the
-- id of the session. json.loads of tags is a parameter; tags are their JSON text. The created_at of
-- an entry, which is not that of its row, is left out.
pub mod Confinement
pub mod Tests
use Prim.Native.String
use agent_sdk.Prelude.{
  ◌≡◌, refl, ℕ, String, Bool, true, false, Option, none, some, List, [], ◌∷◌, map, str_eq,
  if◌then◌else◌,
}
use agent_sdk.Prelude.Dict.{Dict, get}
use agent_sdk.Types.{MemoryType, short_term, long_term, Error, other, Result, ok, err}
use agent_sdk.Db.Sql.{Value, null, int, str, Row}
use agent_sdk.Db.Backend.{Backend}
use agent_sdk.Db.Exec.{Exec, pure, raise, ◌>>=◌, ◌>>◌}
use agent_sdk.Db.Repositories.MemoryRepo
use agent_sdk.Core.Session.{lift, text_at}

pub record MemoryEntry : Type 0 where
  pub id : String
  pub user_id : String
  pub session_id : Option String
  pub key : String
  pub value : String
  pub memory_type : MemoryType
  pub tags : String

abbrev pub type_value : MemoryType → String
type_value short_term = "short_term"
type_value long_term = "long_term"

unfoldable pub parse_type : String → Result MemoryType
parse_type s =
    if str_eq s "short_term"
    then ok short_term
    else if str_eq s "long_term"
    then ok long_term
    else err (other "ValueError")

-- `MemoryType(row.get("memory_type", "short_term"))`
unfoldable pub type_at : Row → Result MemoryType
type_at r = elim (get "memory_type" r) [
  | none ↦ ok short_term
  | some (str s) ↦ parse_type s
  | some _ ↦ err (other "ValueError")
]

-- What `json.loads` makes of the text of the tags: nothing, a list of texts, or another value.
pub data LoadedTags : Type 0 where
  invalid another : LoadedTags
  tags : String → LoadedTags

-- `row.get(k, default)` for a field that is a text, and for one that may be None.
unfoldable pub text_or : String → String → Row → Result String
text_or default k r = elim (get k r) [
  | none ↦ ok default
  | some (str s) ↦ ok s
  | some _ ↦ err (other "ValidationError")
]

pub text_or-some :
    (default k : String) (r : Row) (s : String)
    → get k r ≡ some (str s)
    → text_or default k r ≡ ok s
unfolding text_or
text_or-some default k r s h = rw (text_or, h) refl

unfoldable pub optional_text : String → Row → Result (Option String)
optional_text k r = elim (get k r) [
  | none ↦ ok none
  | some null ↦ ok none
  | some (str s) ↦ ok (some s)
  | some (int n) ↦ err (other "ValidationError")
]

abbrev pub tags_text : LoadedTags → Result String
tags_text invalid = ok "[]"
tags_text another = err (other "ValidationError")
tags_text (tags t) = ok t

-- `f"{e.key}: {e.value}"`, and `"; ".join(…)`.
abbrev pub summary_part : MemoryEntry → String
summary_part e = String.◌++◌ e.key (String.◌++◌ ": " e.value)

abbrev pub join : List String → String
join [] = ""
join (s ∷ []) = s
join (s ∷ t ∷ ts) = String.◌++◌ s (String.◌++◌ "; " (join (t ∷ ts)))

-- A call of the manager. What it returns is left out.
pub data Operation : Type 0 where
  adds_short_term : (session_id key value : String) → Operation
  gets_short_term : (session_id : String) (limit : ℕ) → Operation
  adds_long_term : (key value : String) (entry_tags : Option String) → Operation
  promotes : (session_id : String) → Operation
  clears : (session_id : String) → Operation

module _ {Db : Type 0} (E : Backend Db) (loads : String → LoadedTags) where
  unfoldable pub row_to_entry : Row → Exec Db MemoryEntry
  row_to_entry r = do
    memory_type ← lift (type_at r)
    raw ← lift (text_or "[]" "tags" r)
    text ← lift (tags_text (loads raw))
    id ← lift (text_or "" "id" r)
    user_id ← lift (text_or "" "user_id" r)
    session_id ← lift (optional_text "session_id" r)
    key ← lift (text_or "" "key" r)
    value ← lift (text_or "" "value" r)
    pure (record {
      id = id;
      user_id = user_id;
      session_id = session_id;
      key = key;
      value = value;
      memory_type = memory_type;
      tags = text;
    })

  unfoldable pub to_entries : List Row → Exec Db (List MemoryEntry)
  to_entries [] = pure []
  to_entries (r ∷ rs) = do e ← row_to_entry r; es ← to_entries rs; pure (e ∷ es)

  unfoldable pub add_short_term : String → String → String → Exec Db (Unit {0})
  add_short_term session_id key value = do
    MemoryRepo.create E key value (type_value short_term) (some session_id) none
    pure tt

  unfoldable pub get_short_term : String → ℕ → Exec Db (List MemoryEntry)
  get_short_term session_id limit = do
    rows ← MemoryRepo.get_by_session E session_id (some (type_value short_term)) limit
    to_entries rows

  unfoldable pub add_long_term : String → String → Option String → Exec Db (Unit {0})
  add_long_term key value entry_tags = do
    MemoryRepo.create E key value (type_value long_term) none entry_tags
    pure tt

  unfoldable pub delete_entries : List MemoryEntry → Exec Db (Unit {0})
  delete_entries [] = pure tt
  delete_entries (e ∷ es) = do MemoryRepo.delete E e.id; delete_entries es

  -- Behind `if not short_term: return`.
  unfoldable pub promote : String → List MemoryEntry → Exec Db (Unit {0})
  promote session_id [] = pure tt
  promote session_id (e ∷ es) = do
    add_long_term (String.◌++◌ "summary_" session_id) (join (map summary_part (e ∷ es)))
        (some "[\"auto_summary\"]")
    delete_entries (e ∷ es)

  unfoldable pub summarize_and_promote : String → Exec Db (Unit {0})
  summarize_and_promote session_id = do
    entries ← get_short_term session_id 100
    promote session_id entries

  unfoldable pub delete_rows : List Row → Exec Db (Unit {0})
  delete_rows [] = pure tt
  delete_rows (r ∷ rs) = do id ← lift (text_at "id" r); MemoryRepo.delete E id; delete_rows rs

  unfoldable pub clear : String → Exec Db (Unit {0})
  clear session_id = do rows ← MemoryRepo.get_by_session E session_id none 50; delete_rows rows

  unfoldable pub manage : Operation → Exec Db (Unit {0})
  manage (adds_short_term s k v) = add_short_term s k v
  manage (gets_short_term s n) = do get_short_term s n; pure tt
  manage (adds_long_term k v t) = add_long_term k v t
  manage (promotes s) = summarize_and_promote s
  manage (clears s) = clear s
