-- ===== src/Durability.antt =====
-- agent_sdk/durability/: checkpoints of steps, their replay, and the resuming of a session.
pub mod Checkpoint
pub mod Replay
pub mod Recovery
pub mod Idempotency
