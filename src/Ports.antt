-- ===== src/Ports.antt =====
-- The contracts of src/nexabot/ports that carry values or checks of their own.
pub mod Gateway
pub mod Repositories
