-- ===== src/Governance/Rules/Tests.antt =====
-- Two rules for a tool.
use agent_sdk.Prelude.{String, ◌≡◌, Option, none, some, List, [], ◌∷◌, ◌⊎◌, All}
use agent_sdk.Types.{ExecutionPolicy}
use agent_sdk.Governance.Rules.{PolicyRule, evaluate}
use agent_sdk.Governance.Rules.Strictest.{Ruled, Applies, AtMost, evaluate-strictest}

abbrev rule : Option String → ExecutionPolicy → PolicyRule
rule name policy = record { tool_name = name; policy = policy; condition = none; description = "" }

abbrev rules : List PolicyRule
rules =
    rule none ExecutionPolicy.human_approval
    ∷ rule (some "deploy") ExecutionPolicy.admin_signoff
    ∷ rule (some "search") ExecutionPolicy.auto
    ∷ []

evaluate-strictest_example :
    ((evaluate rules "deploy" ExecutionPolicy.auto ≡ ExecutionPolicy.auto)
      ⊎ Ruled "deploy" (evaluate rules "deploy" ExecutionPolicy.auto) rules)
    × AtMost ExecutionPolicy.auto (evaluate rules "deploy" ExecutionPolicy.auto)
    × All
        (λ (r : PolicyRule).
          Applies "deploy" r → AtMost r.policy (evaluate rules "deploy" ExecutionPolicy.auto))
        rules
evaluate-strictest_example = evaluate-strictest rules "deploy" ExecutionPolicy.auto
