-- ===== src/Db.antt =====
-- agent_sdk/db/: the SQL statements that the SDK writes, the database behind an interface, the
-- actions that read and write it, and the repositories.
pub mod Schema
pub mod Tables
pub mod Sql
pub mod Backend
pub mod Reference
pub mod Keys
pub mod Exec
pub mod Migrations
pub mod Repositories
