-- ===== src/Durability/Checkpoint/Tests.antt =====
-- A checkpoint in the database in memory, its loading and its replay.
use mathlib.Core.List.{Mem}
use agent_sdk.Prelude
use agent_sdk.Prelude.Dict
use agent_sdk.Prelude.{
  ℕ, zero, suc, ◌≤◌, ◌<◌, ◌+◌, arith, String, ◌≡◌, refl, ap, true, Option, none, some, List, [],
  ◌∷◌,
}
use agent_sdk.Types.{ok}
use agent_sdk.Db.Sql
use agent_sdk.Db.Sql.{Row, int, str}
use agent_sdk.Db.Exec
use agent_sdk.Db.Exec.{World, ◌>>=◌}
use agent_sdk.Db.Reference.{Tables, reference}
use agent_sdk.Db.Repositories.StepRepo
use agent_sdk.Isolation.Filter
use agent_sdk.Isolation.Filter.Build
use agent_sdk.Isolation.Filter.Owned.{owned}
use agent_sdk.Isolation.Scope
use agent_sdk.Core.Message.{Step, new_step}
use agent_sdk.Core.Session
use agent_sdk.Durability.Checkpoint.{Codec, rewrap, load}
use agent_sdk.Durability.Checkpoint.Found.{Holds, load-Holds}
use agent_sdk.Durability.Replay.{replay_to}
use agent_sdk.Durability.Replay.Order.{replay_to-present}

abbrev codec : Codec
codec = record { serialize = λ s. s.id; deserialize = λ blob. ok (new_step blob "s1" 1 "k1") }

abbrev stored : Row
stored =
    ("id", str "st1")
    ∷ ("session_id", str "s1")
    ∷ ("user_id", str "alice")
    ∷ ("step_number", int 1)
    ∷ ("checkpoint", str "st1")
    ∷ []

abbrev start : World Tables
start = record { db = λ t. stored ∷ []; scope = some "alice"; reads = 0 }

abbrev step : Step
step = new_step "st1" "s1" 1 "k1"

is_loaded : load codec reference "s1" 1 start ≡ (ok (some step), start)
unfolding load reference rewrap ◌>>=◌ StepRepo.get_by_session Exec.fetch_all_built Filter.select
    Scope.get_user_scope Exec.fetch_all Session.lift Build.select Dict.update Dict.put
    Prelude.str_eq Sql.holds Dict.get Session.number_at
is_loaded = refl

load-Holds_example :
    (r : Row) × Mem r (reference.rows start.db "steps")
    × (owned "alice" r ≡ true)
    × Holds codec 1 r step
load-Holds_example =
    load-Holds codec reference "alice" "s1" 1 start step refl (ap (λ x. x.0) is_loaded)

-- Steps 1 and 3 have a checkpoint, step 2 has none.
abbrev third : Row
third =
    ("id", str "st3")
    ∷ ("session_id", str "s1")
    ∷ ("user_id", str "alice")
    ∷ ("step_number", int 3)
    ∷ ("checkpoint", str "st3")
    ∷ []

abbrev two_steps : World Tables
two_steps = record { db = λ t. stored ∷ third ∷ []; scope = some "alice"; reads = 0 }

abbrev later : Step
later = new_step "st3" "s1" 1 "k1"

abbrev by_number : ℕ → Option Step
by_number (suc zero) = some step
by_number (suc (suc (suc zero))) = some later
by_number _ = none

loaded_1 : (load codec reference "s1" 1 two_steps).0 ≡ ok (some step)
unfolding load reference rewrap ◌>>=◌ StepRepo.get_by_session Exec.fetch_all_built Filter.select
    Scope.get_user_scope Exec.fetch_all Session.lift Build.select Dict.update Dict.put
    Prelude.str_eq Sql.holds Dict.get Session.number_at
loaded_1 = refl

loaded_2 : (load codec reference "s1" 2 two_steps).0 ≡ ok none
unfolding load reference rewrap ◌>>=◌ StepRepo.get_by_session Exec.fetch_all_built Filter.select
    Scope.get_user_scope Exec.fetch_all Session.lift Build.select Dict.update Dict.put
    Prelude.str_eq Sql.holds Dict.get Session.number_at
loaded_2 = refl

loaded_3 : (load codec reference "s1" 3 two_steps).0 ≡ ok (some later)
unfolding load reference rewrap ◌>>=◌ StepRepo.get_by_session Exec.fetch_all_built Filter.select
    Scope.get_user_scope Exec.fetch_all Session.lift Build.select Dict.update Dict.put
    Prelude.str_eq Sql.holds Dict.get Session.number_at
loaded_3 = refl

all_loaded :
    (k : ℕ) → 1 ≤ k → k < 1 + 3 → (load codec reference "s1" k two_steps).0 ≡ ok (by_number k)
all_loaded zero low high = absurd (omega (arith, low))
all_loaded (suc zero) low high = loaded_1
all_loaded (suc (suc zero)) low high = loaded_2
all_loaded (suc (suc (suc zero))) low high = loaded_3
all_loaded (suc (suc (suc (suc k)))) low high = absurd (omega (arith, high))

replay_to-present_example :
    replay_to codec reference (λ o. "") "s1" 3 two_steps ≡ (ok (step ∷ later ∷ []), two_steps)
replay_to-present_example =
    replay_to-present codec reference (λ o. "") "s1" two_steps by_number 3 all_loaded
