-- ===== src/Database/Metadata/Conversations.antt =====
-- infrastructure/database/models.py: the tables conversations to agent_steps as the mapping declares them.
use nexabot.Prelude.{true, false, none, [], ◌∷◌}
use nexabot.Migrations.Schema.{string, text, json, integer, date_time, Table}
use nexabot.Migrations.Columns.{
  pk, fk, col, timestamps, unique_on, plain_index, column_index, check_on,
}

abbrev pub conversations_table : Table
conversations_table = record {
  name = "conversations";
  columns =
      pk
      ∷ fk "conversations" "owner_id" "users.id" false none
      ∷ col "status" (string 32) false
      ∷ col "title" (string 255) true
      ∷ col "meta" json false
      ∷ timestamps;
  primary_key = "id" ∷ [];
  constraints =
      check_on "conversations" "conversation_status_valid"
        "status IN ('active', 'archived', 'deleted')"
      ∷ [];
  indexes =
      column_index "conversations" "owner_id" false
      ∷ column_index "conversations" "status" false
      ∷ plain_index "ix_conversations_owner_status" ("owner_id" ∷ "status" ∷ [])
      ∷ [];
}

abbrev pub messages_table : Table
messages_table = record {
  name = "messages";
  columns =
      pk
      ∷ fk "messages" "conversation_id" "conversations.id" false none
      ∷ col "role" (string 32) false
      ∷ col "content" text false
      ∷ col "meta" json false
      ∷ timestamps;
  primary_key = "id" ∷ [];
  constraints =
      check_on "messages" "message_role_valid" "role IN ('system', 'user', 'assistant', 'tool')"
      ∷ check_on "messages" "message_content_not_empty" "content <> ''"
      ∷ [];
  indexes =
      column_index "messages" "conversation_id" false
      ∷ column_index "messages" "role" false
      ∷ plain_index "ix_messages_conversation_created" ("conversation_id" ∷ "created_at" ∷ [])
      ∷ [];
}

abbrev pub agent_runs_table : Table
agent_runs_table = record {
  name = "agent_runs";
  columns =
      pk
      ∷ fk "agent_runs" "user_id" "users.id" false none
      ∷ fk "agent_runs" "conversation_id" "conversations.id" false none
      ∷ col "status" (string 32) false
      ∷ col "provider" (string 128) false
      ∷ col "model" (string 128) false
      ∷ col "started_at" date_time true
      ∷ col "finished_at" date_time true
      ∷ col "failure_reason" text true
      ∷ col "final_response" text true
      ∷ col "usage_metadata" json false
      ∷ col "max_steps" integer false
      ∷ col "max_tool_calls" integer false
      ∷ col "max_retries" integer false
      ∷ col "max_execution_seconds" integer false
      ∷ col "max_context_tokens" integer false
      ∷ timestamps;
  primary_key = "id" ∷ [];
  constraints =
      check_on "agent_runs" "agent_run_status_valid"
        "status IN ('pending', 'running', 'succeeded', 'failed', 'cancelled')"
      ∷ check_on "agent_runs" "agent_run_limits_positive"
          "max_steps > 0 AND max_tool_calls > 0 AND max_retries > 0 AND max_execution_seconds > 0 AND max_context_tokens > 0"
      ∷ check_on "agent_runs" "agent_run_terminal_state_recorded"
          "(status NOT IN ('succeeded', 'failed', 'cancelled') OR finished_at IS NOT NULL) AND (status <> 'succeeded' OR final_response IS NOT NULL) AND (status <> 'failed' OR failure_reason IS NOT NULL)"
      ∷ [];
  indexes =
      column_index "agent_runs" "user_id" false
      ∷ column_index "agent_runs" "conversation_id" false
      ∷ column_index "agent_runs" "status" false
      ∷ [];
}

abbrev pub agent_steps_table : Table
agent_steps_table = record {
  name = "agent_steps";
  columns =
      pk
      ∷ fk "agent_steps" "run_id" "agent_runs.id" false none
      ∷ col "index" integer false
      ∷ col "type" (string 64) false
      ∷ col "meta" json false
      ∷ timestamps;
  primary_key = "id" ∷ [];
  constraints =
      unique_on "uq_agent_steps_run_index" ("run_id" ∷ "index" ∷ [])
      ∷ check_on "agent_steps" "agent_step_index_positive" "\"index\" >= 1"
      ∷ [];
  indexes =
      column_index "agent_steps" "run_id" false
      ∷ plain_index "ix_agent_steps_run_type" ("run_id" ∷ "type" ∷ [])
      ∷ [];
}
