-- ===== src/Interfaces.antt =====
-- The parts of src/nexabot/interfaces/api that decide something.
pub mod App
pub mod Health
pub mod Middleware
pub mod RequestId
pub mod Security
