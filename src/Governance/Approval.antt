-- ===== src/Governance/Approval.antt =====
-- agent_sdk/governance/approval.py. While `wait_for_resolution` sleeps, other tasks may write the
-- database: what they do is a parameter. A timeout is a number of seconds, and a poll takes no time.
pub mod Waiting
pub mod Outcome
pub mod Tests
use agent_sdk.Prelude.{
  ℕ, zero, suc, String, Bool, true, false, Option, none, some, List, [], ◌∷◌, str_eq, if◌then◌else◌,
}
use agent_sdk.Prelude.Dict.{get}
use agent_sdk.Types.{
  ApprovalStatus, approved, denied, expired, ExecutionPolicy, auto, human_approval, admin_signoff,
  Error, approval_timeout, approval_denied, other, Result, ok, err,
}
use agent_sdk.Db.Sql.{Value, int, str, Row}
use agent_sdk.Db.Backend.{Backend}
use agent_sdk.Db.Exec.{World, Exec, pure, raise, now, ◌>>=◌, ◌>>◌}
use agent_sdk.Db.Repositories.ApprovalRepo
use agent_sdk.Persistence.History.{optional}
use agent_sdk.Core.Message.{ToolCall}
use agent_sdk.Core.Session.{text_at, number_at, lift}

pub record ApprovalRequest : Type 0 where
  pub id : String
  pub session_id : String
  pub user_id : String
  pub step_number : ℕ
  pub tool_call : Option ToolCall
  pub required_policy : ExecutionPolicy
  pub status : ApprovalStatus
  pub requested_at : String
  pub resolved_by : Option String
  pub reason : Option String

-- `status.value`, and `ApprovalStatus(value)`
unfoldable pub status_value : ApprovalStatus → String
status_value ApprovalStatus.pending = "pending"
status_value ApprovalStatus.approved = "approved"
status_value ApprovalStatus.denied = "denied"
status_value ApprovalStatus.expired = "expired"

unfoldable pub parse_status : String → Result ApprovalStatus
parse_status s =
    if str_eq s "pending"
    then ok ApprovalStatus.pending
    else if str_eq s "approved"
    then ok ApprovalStatus.approved
    else if str_eq s "denied"
    then ok ApprovalStatus.denied
    else if str_eq s "expired"
    then ok ApprovalStatus.expired
    else err (other "ValueError")

-- `policy.value`, and `ExecutionPolicy(value)`
unfoldable pub policy_value : ExecutionPolicy → String
policy_value ExecutionPolicy.auto = "auto"
policy_value ExecutionPolicy.human_approval = "human_approval"
policy_value ExecutionPolicy.admin_signoff = "admin_signoff"

unfoldable pub parse_policy : String → Result ExecutionPolicy
parse_policy s =
    if str_eq s "auto"
    then ok ExecutionPolicy.auto
    else if str_eq s "human_approval"
    then ok ExecutionPolicy.human_approval
    else if str_eq s "admin_signoff"
    then ok ExecutionPolicy.admin_signoff
    else err (other "ValueError")

abbrev pub Reason : Type 0
Reason = Option String × Option String

-- Who resolved a request, and why: read, or left out.
abbrev pub reasons_of : Row → Reason
reasons_of r = (optional (get "resolved_by" r), optional (get "reason" r))

module _ {Db : Type 0} (E : Backend Db) where
  -- `row["status"]` as a status.
  row_status : Row → Exec Db ApprovalStatus
  unfolding lift text_at parse_status
  row_status r = do text ← lift (text_at "status" r); lift (parse_status text)

  -- `row["required_policy"]` as a policy.
  row_policy : Row → Exec Db ExecutionPolicy
  unfolding lift text_at parse_policy
  row_policy r = do text ← lift (text_at "required_policy" r); lift (parse_policy text)

  -- `ApprovalRequest(id=row["id"], …, required_policy=policy, status=status, …)`, with its
  -- defaults. The fields are read in this order.
  from_row :
      Row
      → Option ToolCall
      → Exec Db ExecutionPolicy
      → Exec Db ApprovalStatus
      → Reason
      → Exec Db ApprovalRequest
  unfolding lift text_at number_at
  from_row r tool_call read_policy read_status why = do
    id ← lift (text_at "id" r)
    session_id ← lift (text_at "session_id" r)
    user_id ← lift (text_at "user_id" r)
    step_number ← lift (number_at "step_number" r)
    policy ← read_policy
    status ← read_status
    time ← now E
    pure (record {
      id = id;
      session_id = session_id;
      user_id = user_id;
      step_number = step_number;
      tool_call = tool_call;
      required_policy = policy;
      status = status;
      requested_at = time;
      resolved_by = why.0;
      reason = why.1;
    })

  abbrev by_default : Exec Db ExecutionPolicy
  by_default = pure ExecutionPolicy.human_approval

  request_from : Option Row → ToolCall → Exec Db ApprovalRequest
  unfolding from_row row_status row_policy
  request_from none tool_call = raise (other "TypeError")
  request_from (some r) tool_call =
      from_row r (some tool_call) (row_policy r) (row_status r) (none, none)

  pub request_approval : String → ToolCall → ExecutionPolicy → ℕ → Exec Db ApprovalRequest
  unfolding request_from
  request_approval session_id tool_call policy step_number = do
    row ←
        ApprovalRepo.create E session_id step_number tool_call.tool_name tool_call.arguments
          (policy_value policy)
    request_from row tool_call

  resolved_from : String → ApprovalStatus → Option Row → Exec Db ApprovalRequest
  unfolding from_row row_status
  resolved_from request_id decision none = do
    time ← now E
    pure (record {
      id = request_id;
      session_id = "";
      user_id = "";
      step_number = 0;
      tool_call = none;
      required_policy = ExecutionPolicy.human_approval;
      status = decision;
      requested_at = time;
      resolved_by = none;
      reason = none;
    })
  resolved_from request_id decision (some r) =
      from_row r none by_default (row_status r) (reasons_of r)

  pub resolve : String → ApprovalStatus → String → String → Exec Db ApprovalRequest
  unfolding resolved_from
  resolve request_id decision resolved_by reason = do
    ApprovalRepo.resolve E request_id (status_value decision) resolved_by reason
    row ← ApprovalRepo.get_by_id E request_id
    resolved_from request_id decision row

  requests_from : List Row → Exec Db (List ApprovalRequest)
  unfolding from_row row_status
  requests_from [] = pure []
  requests_from (r ∷ rs) = do
    request ← from_row r none by_default (row_status r) (none, none)
    rest ← requests_from rs
    pure (request ∷ rest)

  -- The `user_id` argument is not read.
  pub get_pending : Exec Db (List ApprovalRequest)
  unfolding requests_from
  get_pending = do rows ← ApprovalRepo.get_pending E; requests_from rows

  -- What a poll makes of a status that is not pending.
  settled : Row → ApprovalStatus → Exec Db (Option ApprovalRequest)
  unfolding from_row
  settled r ApprovalStatus.denied = raise approval_denied
  settled r status = do
    request ← from_row r none by_default (pure status) (reasons_of r)
    pure (some request)

  -- `row["status"] != "pending"`, and what follows it.
  inspect : Row → String → Exec Db (Option ApprovalRequest)
  unfolding settled
  inspect r text =
      if str_eq text "pending"
      then pure none
      else do status ← lift (parse_status text); settled r status

  read : Option Row → Exec Db (Option ApprovalRequest)
  unfolding inspect
  read none = pure none
  read (some r) = do text ← lift (text_at "status" r); inspect r text

  -- One poll: none if there is no such request or it is pending.
  unfoldable pub poll : String → Exec Db (Option ApprovalRequest)
  unfolding read inspect settled from_row
  poll request_id = do row ← ApprovalRepo.get_by_id E request_id; read row

  module _ (request_id : String) (sleeping : ℕ → World Db → World Db) where
    abbrev pub or_wait : Option ApprovalRequest → Exec Db ApprovalRequest → Exec Db ApprovalRequest
    or_wait none rest = rest
    or_wait (some request) rest = pure request

    -- The loop with `left` seconds to go, of which `elapsed` have passed.
    pub wait : (left elapsed : ℕ) → Exec Db ApprovalRequest
    wait zero elapsed = raise approval_timeout
    wait (suc left) elapsed = do
      found ← poll request_id
      or_wait found (λ w. wait left (suc elapsed) (sleeping elapsed w))

    pub wait_for_resolution : (timeout : ℕ) → Exec Db ApprovalRequest
    unfolding wait
    wait_for_resolution timeout = wait timeout 0
