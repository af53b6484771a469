-- ===== src/Database/Metadata.antt =====
-- infrastructure/database/models.py: the schema that the mapping declares (`Base.metadata`).
pub mod Identity
pub mod Conversations
pub mod Content
pub mod Operations
use nexabot.Prelude.{List, [], ◌∷◌}
use nexabot.Migrations.Schema.{Schema}
use nexabot.Database.Metadata.Identity.{
  user_roles_table, role_permissions_table, users_table, telegram_identities_table, roles_table,
  permissions_table,
}
use nexabot.Database.Metadata.Conversations.{
  conversations_table, messages_table, agent_runs_table, agent_steps_table,
}
use nexabot.Database.Metadata.Content.{
  tools_table, tool_executions_table, memories_table, memory_items_table, files_table,
  file_chunks_table,
}
use nexabot.Database.Metadata.Operations.{
  usage_records_table, subscriptions_table, tasks_table, task_attempts_table,
  idempotency_records_table, audit_logs_table,
}

unfoldable pub metadata : Schema
metadata =
    user_roles_table ∷ role_permissions_table ∷ users_table ∷ telegram_identities_table
    ∷ roles_table ∷ permissions_table ∷ conversations_table ∷ messages_table ∷ agent_runs_table
    ∷ agent_steps_table ∷ tools_table ∷ tool_executions_table ∷ memories_table ∷ memory_items_table
    ∷ files_table ∷ file_chunks_table ∷ usage_records_table ∷ subscriptions_table ∷ tasks_table
    ∷ task_attempts_table ∷ idempotency_records_table ∷ audit_logs_table ∷ []
