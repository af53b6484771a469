-- ===== src/Database.antt =====
-- The persistence layer, src/nexabot/infrastructure/database.
pub mod Tables
pub mod World
pub mod UnitOfWork
pub mod Idempotency
pub mod Conversations
pub mod AgentRuns
pub mod Users
pub mod Metadata
pub mod Readiness
pub mod Silence
