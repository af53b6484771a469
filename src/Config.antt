-- ===== src/Config.antt =====
-- src/nexabot/config
pub mod Numerals
pub mod Parsing
pub mod Redaction
pub mod Required
pub mod Settings
