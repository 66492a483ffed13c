-- ===== src/Governance/Approval/Tests.antt =====
-- A request that is approved while the second poll is awaited.
use agent_sdk.Prelude.{
  ℕ, zero, suc, String, ◌≡◌, refl, arith, ◌<◌, Option, none, some, List, [], ◌∷◌, inr,
}
use agent_sdk.Prelude.Dict
use agent_sdk.Prelude.Dict.{get}
use agent_sdk.Types.{ApprovalStatus, ExecutionPolicy, approval_timeout, approval_denied, ok, err}
use agent_sdk.Db.Sql
use agent_sdk.Db.Sql.{Row, int, str}
use agent_sdk.Db.Exec
use agent_sdk.Db.Exec.{World, pure, ◌>>=◌}
use agent_sdk.Db.Reference.{Tables, reference}
use agent_sdk.Db.Repositories.ApprovalRepo
use agent_sdk.Isolation.Filter
use agent_sdk.Isolation.Filter.Build
use agent_sdk.Isolation.Scope
use agent_sdk.Persistence.History
use agent_sdk.Prelude
use agent_sdk.Governance.Approval.{ApprovalRequest, wait_for_resolution}
use agent_sdk.Governance.Approval.Waiting.{
  Ends, Shows, Waits, resolved, slept, wait-verdict, wait-timeout,
}

abbrev request : String → Row
request status =
    ("id", str "a1")
    ∷ ("session_id", str "s1")
    ∷ ("user_id", str "alice")
    ∷ ("step_number", int 3)
    ∷ ("status", str status)
    ∷ ("resolved_by", str "bob")
    ∷ ("reason", str "")
    ∷ []

abbrev start : World Tables
start = record { db = λ t. request "pending" ∷ []; scope = some "alice"; reads = 0 }

-- Somebody approves the request.
abbrev sleeping : ℕ → World Tables → World Tables
sleeping n w = record w { db = λ t. request "approved" ∷ [] }

abbrev approved : ApprovalRequest
approved = record {
  id = "a1";
  session_id = "s1";
  user_id = "alice";
  step_number = 3;
  tool_call = none;
  required_policy = ExecutionPolicy.human_approval;
  status = ApprovalStatus.approved;
  requested_at = "2026-01-01T00:00:00+00:00";
  resolved_by = some "bob";
  reason = some "";
}

abbrev found : Row
found = request "approved"

first_poll : Waits reference "a1" sleeping start
unfolding Waits reference ApprovalRepo.get_by_id Exec.fetch_one_built Filter.select ◌>>=◌
    Scope.get_user_scope Exec.fetch_one Build.select Dict.update Dict.put Prelude.str_eq Sql.holds
    Dict.get
first_poll = inr (request "pending", refl, refl)

only_first :
    (i : ℕ) → i < 1 → Waits reference "a1" sleeping (slept reference "a1" sleeping i 0 start)
unfolding slept
only_first zero lt = first_poll
only_first (suc i) lt = absurd (omega (arith, lt))

second_finds :
    ApprovalRepo.get_by_id reference "a1" (slept reference "a1" sleeping 1 0 start)
    ≡ (ok (some found), slept reference "a1" sleeping 1 0 start)
unfolding slept reference ApprovalRepo.get_by_id Exec.fetch_one_built Filter.select ◌>>=◌
    Scope.get_user_scope Exec.fetch_one Build.select Dict.update Dict.put Prelude.str_eq Sql.holds
    Dict.get
second_finds = refl

shows : Shows "a1" "s1" "alice" 3 found
unfolding Dict.get Prelude.str_eq
shows = record { has_id = refl; has_session_id = refl; has_user_id = refl; has_step_number = refl }

-- The second poll finds that the request is approved.
wait-verdict_example :
    (get "status" found ≡ some (str "denied")
      → (wait_for_resolution reference "a1" sleeping 300 start).0 ≡ err approval_denied)
    × ((id session_id user_id : String) (step_number : ℕ) (status : ApprovalStatus)
          (h : Shows id session_id user_id step_number found)
        → Ends found status
        → (wait_for_resolution reference "a1" sleeping 300 start).0
          ≡ ok (
              resolved reference "a1" sleeping id session_id user_id step_number found
                (slept reference "a1" sleeping 1 0 start)
                h
                status))
wait-verdict_example =
    wait-verdict reference "a1" sleeping 300 1 start found (omega arith) only_first second_finds

approved_returned : (wait_for_resolution reference "a1" sleeping 300 start).0 ≡ ok approved
unfolding Dict.get Prelude.str_eq reference slept History.optional
approved_returned = wait-verdict_example.1 "a1" "s1" "alice" 3 ApprovalStatus.approved shows refl

wait-timeout_example :
    (wait_for_resolution reference "a1" sleeping 1 start).0 ≡ err approval_timeout
wait-timeout_example = wait-timeout reference "a1" sleeping 1 start only_first
