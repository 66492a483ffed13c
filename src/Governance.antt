-- ===== src/Governance.antt =====
-- agent_sdk/governance/: the rule engine, the approval workflow and the audit log.
pub mod Rules
pub mod Approval
pub mod Audit
