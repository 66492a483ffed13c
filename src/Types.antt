-- ===== src/Types.antt =====
-- agent_sdk/types.py: the enums of the SDK, and agent_sdk/exceptions.py: the exception hierarchy.
use agent_sdk.Prelude.{String}

pub data StepStatus : Type 0 where
  pending running completed failed skipped : StepStatus

pub data SessionStatus : Type 0 where
  active paused completed archived : SessionStatus

pub data RunStatus : Type 0 where
  completed paused failed : RunStatus

pub data MessageRole : Type 0 where
  user assistant system tool : MessageRole

pub data ExecutionPolicy : Type 0 where
  auto human_approval admin_signoff : ExecutionPolicy

pub data ApprovalStatus : Type 0 where
  pending approved denied expired : ApprovalStatus

pub data MemoryType : Type 0 where
  short_term long_term : MemoryType

pub data CircuitState : Type 0 where
  closed opened half_open : CircuitState

-- The classes below `AgentSDKError`, each with its message, and any other exception.
pub data Error : Type 0 where
  sdk_error configuration session_not_found session_paused step_execution tool_not_found : Error
  tool_execution isolation_violation approval_required approval_timeout approval_denied : Error
  checkpoint_error replay_error rate_limit circuit_open backpressure llm_error discovery : Error
  other : String → Error

pub data Result {ℓ} (A : Type ℓ) : Type ℓ where
  ok : A → Result A
  err : Error → Result A
