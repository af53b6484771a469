-- ===== src/Migrations.antt =====
-- src/migrations: the chain of schema migrations, and the schema that it leads to.
pub mod Schema
pub mod Columns
pub mod Local
pub mod Foundation
pub mod Revisions
pub mod Matching
pub mod Chain
