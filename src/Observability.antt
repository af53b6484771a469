-- ===== src/Observability.antt =====
-- src/nexabot/observability
pub mod Context
pub mod Logging
