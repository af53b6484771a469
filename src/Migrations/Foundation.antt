-- ===== src/Migrations/Foundation.antt =====
-- migrations/versions/20260824_0001_foundation.py: the first schema.
pub mod Identity
pub mod Conversations
pub mod Content
pub mod Operations
use nexabot.Prelude.{String, List, [], ◌∷◌, ◌++◌, map}
use nexabot.Migrations.Schema.{Op, drop_table}
use nexabot.Migrations.Foundation.Identity.{
  create_users, create_roles, create_permissions, create_user_roles, create_role_permissions,
  create_telegram_identities,
}
use nexabot.Migrations.Foundation.Conversations.{
  create_conversations, create_messages, create_agent_runs, create_agent_steps, create_tools,
  create_tool_executions,
}
use nexabot.Migrations.Foundation.Content.{
  create_memories, create_memory_items, create_files, create_file_chunks,
}
use nexabot.Migrations.Foundation.Operations.{
  create_usage_records, create_subscriptions, create_tasks, create_task_attempts,
  create_idempotency_records, create_audit_logs,
}

unfoldable pub upgrade : List Op
upgrade =
    create_users ++ create_roles ++ create_permissions ++ create_user_roles
    ++ create_role_permissions ++ create_telegram_identities ++ create_conversations
    ++ create_messages ++ create_agent_runs ++ create_agent_steps ++ create_tools
    ++ create_tool_executions ++ create_memories ++ create_memory_items ++ create_files
    ++ create_file_chunks ++ create_usage_records ++ create_subscriptions ++ create_tasks
    ++ create_task_attempts ++ create_idempotency_records ++ create_audit_logs

-- The tables, in the order in which they are dropped.
abbrev pub application_tables : List String
application_tables =
    "audit_logs" ∷ "idempotency_records" ∷ "task_attempts" ∷ "tasks" ∷ "subscriptions"
    ∷ "usage_records" ∷ "file_chunks" ∷ "files" ∷ "memory_items" ∷ "memories" ∷ "tool_executions"
    ∷ "tools" ∷ "agent_steps" ∷ "agent_runs" ∷ "messages" ∷ "conversations" ∷ "telegram_identities"
    ∷ "role_permissions" ∷ "user_roles" ∷ "permissions" ∷ "roles" ∷ "users" ∷ []

unfoldable pub downgrade : List Op
downgrade = map drop_table application_tables
