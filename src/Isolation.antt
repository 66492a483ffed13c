-- ===== src/Isolation.antt =====
-- agent_sdk/isolation/: the user scope, the query builder that injects it, and the validator; and
-- what scoped actions can read and write.
pub mod Scope
pub mod Filter
pub mod Validator
pub mod Others
pub mod Confined
pub mod Reads
pub mod Tests
