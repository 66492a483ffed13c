-- ===== src/Persistence.antt =====
-- agent_sdk/persistence/: conversation history, sessions, memory and knowledge.
pub mod History
pub mod Plain
pub mod SessionStore
pub mod Memory
pub mod Knowledge
