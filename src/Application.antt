-- ===== src/Application.antt =====
-- The use cases, src/nexabot/application.
pub mod Identity
pub mod Conversations
pub mod AgentTurn
