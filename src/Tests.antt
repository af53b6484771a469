-- ===== src/Tests.antt =====
-- The properties at concrete inputs.
mod Fixture
mod Claims
mod Entities
mod Turns
mod Failures
mod Stored
mod Identities
mod Archived
mod Pages
mod Blocked
mod Outcomes
mod Answers
mod Inbound
mod Configured
mod Processes
