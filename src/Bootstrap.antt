-- ===== src/Bootstrap.antt =====
-- src/nexabot/bootstrap
pub mod Main
pub mod Readiness
