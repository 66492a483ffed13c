-- ===== src/Persistence/Memory/Tests.antt =====
-- Alice promotes what she and the model said in a session, with an entry of Bob's in the same table.
use agent_sdk.Prelude.{String, refl, some, [], ◌∷◌}
use agent_sdk.Db.Exec.{World}
use agent_sdk.Db.Sql.{str, Row}
use agent_sdk.Db.Reference.{Tables, reference}
use agent_sdk.Isolation.Confined.{SameOthers}
use agent_sdk.Persistence.Memory.{tags, promotes, manage}
use agent_sdk.Persistence.Memory.Confinement.{manage-others}

abbrev entry : String → String → String → Row
entry id user_id key =
    ("id", str id)
    ∷ ("user_id", str user_id)
    ∷ ("session_id", str "s1")
    ∷ ("key", str key)
    ∷ ("value", str "Bern")
    ∷ ("memory_type", str "short_term")
    ∷ ("tags", str "[]")
    ∷ ("created_at", str "2026-01-01T00:00:00+00:00")
    ∷ []

abbrev both : World Tables
both = record {
  db = λ t. entry "m1" "alice" "city" ∷ entry "m2" "bob" "town" ∷ [];
  scope = some "alice";
  reads = 0;
}

manage-others_example :
    SameOthers reference "alice" both.db (manage reference (λ t. tags t) (promotes "s1") both).1.db
manage-others_example = manage-others reference (λ t. tags t) "alice" (promotes "s1") both refl
