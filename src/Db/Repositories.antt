-- ===== src/Db/Repositories.antt =====
-- agent_sdk/db/repositories/: the repositories that go through `ScopedQueryBuilder`. A `dict` or a
-- list that a caller passes to be stored by json.dumps is its JSON text.
pub mod SessionRepo
pub mod StepRepo
pub mod ApprovalRepo
pub mod MemoryRepo
pub mod AuditRepo
pub mod KnowledgeRepo
pub mod AgentRegistryRepo
pub mod Calls
