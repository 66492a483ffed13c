-- ===== src/Durability/Idempotency/Tests.antt =====
-- Alice records a key that is free, and one that Bob has.
use agent_sdk.Db.Exec
use agent_sdk.Db.Tables
use agent_sdk.Db.Sql
use agent_sdk.Durability.Idempotency
use agent_sdk.Isolation.Scope
use agent_sdk.Prelude.Dict
use agent_sdk.Prelude.{String, ◌≡◌, refl, true, false, Option, none, some, [], ◌∷◌, str_eq}
use agent_sdk.Types.{ok}
use agent_sdk.Db.Sql.{Row, any}
use agent_sdk.Db.Exec.{World}
use agent_sdk.Db.Reference.{Tables, no_rows, reference}
use agent_sdk.Durability.Idempotency.{Outcome, dict, plain, key_row, decoded, record_, check}
use agent_sdk.Durability.Idempotency.FirstWins.{has_key, is_own, check-record}

abbrev loads : String → Option String
loads t = some t

abbrev empty : World Tables
empty = record { db = no_rows; scope = some "alice"; reads = 0 }

abbrev with_bob : World Tables
with_bob = record empty { db = λ t. key_row "k1" "s2" "bob" "{}" ∷ [] }

-- Bob's key hides Alice's result from her.
collision :
    (check loads reference "k1"
      (record_ loads reference "k1" (dict "{\"a\": 1}") "s1" with_bob).1).0
    ≡ ok none
unfolding str_eq check Exec.◌>>=◌ Scope.get_user_scope record_ Exec.execute reference Exec.fetch_one
    Idempotency.cached Tables.primary_key Dict.get Sql.sql_eq Sql.holds
collision = refl

recorded : (record_ loads reference "k1" (plain "7") "s1" empty).0 ≡ ok tt
unfolding str_eq record_ Exec.◌>>=◌ Scope.get_user_scope Exec.execute reference
recorded = refl

check-record_example :
    (any (has_key "k1") [] ≡ false
      → (check loads reference "k1" (record_ loads reference "k1" (plain "7") "s1" empty).1).0
        ≡ ok (some (decoded "{\"output\": 7}")))
    × (any (has_key "k1") [] ≡ true
        → (check loads reference "k1" (record_ loads reference "k1" (plain "7") "s1" empty).1).0
          ≡ (check loads reference "k1" empty).0)
    × (any (has_key "k1") [] ≡ true
        → any (is_own "k1" "alice") [] ≡ false
        → ((check loads reference "k1" empty).0 ≡ ok none)
          × ((check loads reference "k1" (record_ loads reference "k1" (plain "7") "s1" empty).1).0
              ≡ ok none))
unfolding reference
check-record_example =
    check-record reference loads "alice" "k1" (plain "7") "s1" empty refl recorded
