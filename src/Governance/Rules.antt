-- ===== src/Governance/Rules.antt =====
-- agent_sdk/governance/policy.py and agent_sdk/governance/rules.py. The engine reads the name and
-- the policy of a tool; its `ctx` argument is not read.
pub mod Strictest
pub mod Tests
use agent_sdk.Prelude.{
  ℕ, String, Bool, true, false, Option, none, some, List, [], ◌∷◌, str_eq, ltb, if◌then◌else◌,
}
use agent_sdk.Types.{ExecutionPolicy, auto, human_approval, admin_signoff}

pub record PolicyRule : Type 0 where
  pub tool_name : Option String
  pub policy : ExecutionPolicy
  pub condition : Option String
  pub description : String

-- `_POLICY_PRIORITY`
abbrev pub priority : ExecutionPolicy → ℕ
priority ExecutionPolicy.auto = 0
priority ExecutionPolicy.human_approval = 1
priority ExecutionPolicy.admin_signoff = 2

abbrev pub matches : String → PolicyRule → Bool
matches name rule = elim rule.tool_name [ none ↦ true | some n ↦ str_eq n name ]

-- The policies of the rules that match, in order.
pub matching : String → List PolicyRule → List ExecutionPolicy
matching name [] = []
matching name (rule ∷ rules) =
    let rest = matching name rules in if matches name rule then rule.policy ∷ rest else rest

-- `max` by priority, which keeps the first of equals: `best` is the greatest so far.
pub stricter : ExecutionPolicy → ExecutionPolicy → ExecutionPolicy
stricter best p = if ltb (priority best) (priority p) then p else best

pub strictest : ExecutionPolicy → List ExecutionPolicy → ExecutionPolicy
unfolding stricter
strictest best [] = best
strictest best (p ∷ ps) = strictest (stricter best p) ps

-- A tool always has a policy, so that there is always a candidate.
pub evaluate : List PolicyRule → (name : String) (policy : ExecutionPolicy) → ExecutionPolicy
unfolding matching strictest
evaluate rules name policy = strictest policy (matching name rules)
