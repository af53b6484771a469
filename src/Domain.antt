-- ===== src/Domain.antt =====
-- The domain layer, src/nexabot/domain: entities, state machines, limits and the error taxonomy.
pub mod Errors
pub mod Json
pub mod Identity
pub mod Conversations
pub mod Agent
pub mod Context
