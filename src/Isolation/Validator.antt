-- ===== src/Isolation/Validator.antt =====
-- agent_sdk/isolation/validator.py
use agent_sdk.Prelude.{String, Bool, false, str_eq, Option, some, List, [], ◌∷◌, if◌then◌else◌}
use agent_sdk.Prelude.Dict.{get}
use agent_sdk.Types.{isolation_violation, Result, ok, err}
use agent_sdk.Db.Sql.{Value, str, Row}

-- `actual != expected`, where `actual` is None if the record has no such key.
unfoldable pub is_owner : String → Option Value → Bool
is_owner u (some (str v)) = str_eq v u
is_owner u _ = false

pub assert_owns : Row → String → Result (Unit {0})
unfolding is_owner
assert_owns r u = if is_owner u (get "user_id" r) then ok tt else err isolation_violation

pub assert_all_owned : List Row → String → Result (Unit {0})
assert_all_owned [] u = ok tt
assert_all_owned (r ∷ rs) u =
    let rest = assert_all_owned rs u in elim (assert_owns r u) [ ok _ ↦ rest | err e ↦ err e ]
