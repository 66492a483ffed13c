-- ===== src/Scale.antt =====
-- agent_sdk/scale/: one module for each file.
pub mod CircuitBreaker
pub mod RateLimiter
pub mod Retry
pub mod Pool
pub mod Queue
