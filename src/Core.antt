-- ===== src/Core.antt =====
-- agent_sdk/core/: messages, sessions, tools and the step loop of an agent.
pub mod Message
pub mod Session
pub mod Tool
pub mod Sound
pub mod Agent
pub mod Llm
