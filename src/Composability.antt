-- ===== src/Composability.antt =====
-- agent_sdk/composability: the registry of agents.
pub mod Discovery
