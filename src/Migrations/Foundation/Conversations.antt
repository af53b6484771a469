-- ===== src/Migrations/Foundation/Conversations.antt =====
-- migrations/versions/20260824_0001_foundation.py: the tables conversations to tool_executions.
use nexabot.Prelude.{true, false, none, List, [], ◌∷◌}
use nexabot.Migrations.Schema.{string, text, json, integer, boolean, date_time, Op, create_table}
use nexabot.Migrations.Columns.{pk, fk, col, timestamps, index_on, unique_on}

abbrev pub create_conversations : List Op
create_conversations =
    create_table (record {
      name = "conversations";
      columns =
          pk
          ∷ fk "conversations" "owner_id" "users.id" false none
          ∷ col "status" (string 32) false
          ∷ col "title" (string 255) true
          ∷ col "meta" json false
          ∷ timestamps;
      primary_key = "id" ∷ [];
      constraints = [];
      indexes = [];
    })
    ∷ index_on "conversations" "ix_conversations_owner_id" ("owner_id" ∷ []) false
    ∷ index_on "conversations" "ix_conversations_status" ("status" ∷ []) false
    ∷ index_on "conversations" "ix_conversations_owner_status" ("owner_id" ∷ "status" ∷ []) false
    ∷ []

abbrev pub create_messages : List Op
create_messages =
    create_table (record {
      name = "messages";
      columns =
          pk
          ∷ fk "messages" "conversation_id" "conversations.id" false none
          ∷ col "role" (string 32) false
          ∷ col "content" text false
          ∷ col "meta" json false
          ∷ timestamps;
      primary_key = "id" ∷ [];
      constraints = [];
      indexes = [];
    })
    ∷ index_on "messages" "ix_messages_conversation_id" ("conversation_id" ∷ []) false
    ∷ index_on "messages" "ix_messages_role" ("role" ∷ []) false
    ∷ index_on "messages" "ix_messages_conversation_created" ("conversation_id" ∷ "created_at" ∷ [])
        false
    ∷ []

abbrev pub create_agent_runs : List Op
create_agent_runs =
    create_table (record {
      name = "agent_runs";
      columns =
          pk
          ∷ fk "agent_runs" "user_id" "users.id" false none
          ∷ fk "agent_runs" "conversation_id" "conversations.id" false none
          ∷ col "status" (string 32) false
          ∷ col "provider" (string 128) false
          ∷ col "model" (string 128) false
          ∷ col "started_at" date_time true
          ∷ col "finished_at" date_time true
          ∷ col "failure_reason" text true
          ∷ col "usage_metadata" json false
          ∷ timestamps;
      primary_key = "id" ∷ [];
      constraints = [];
      indexes = [];
    })
    ∷ index_on "agent_runs" "ix_agent_runs_user_id" ("user_id" ∷ []) false
    ∷ index_on "agent_runs" "ix_agent_runs_conversation_id" ("conversation_id" ∷ []) false
    ∷ index_on "agent_runs" "ix_agent_runs_status" ("status" ∷ []) false
    ∷ []

abbrev pub create_agent_steps : List Op
create_agent_steps =
    create_table (record {
      name = "agent_steps";
      columns =
          pk
          ∷ fk "agent_steps" "run_id" "agent_runs.id" false none
          ∷ col "index" integer false
          ∷ col "type" (string 64) false
          ∷ col "meta" json false
          ∷ timestamps;
      primary_key = "id" ∷ [];
      constraints = unique_on "uq_agent_steps_run_index" ("run_id" ∷ "index" ∷ []) ∷ [];
      indexes = [];
    })
    ∷ index_on "agent_steps" "ix_agent_steps_run_id" ("run_id" ∷ []) false
    ∷ index_on "agent_steps" "ix_agent_steps_run_type" ("run_id" ∷ "type" ∷ []) false
    ∷ []

abbrev pub create_tools : List Op
create_tools =
    create_table (record {
      name = "tools";
      columns =
          pk
          ∷ col "name" (string 128) false
          ∷ col "version" (string 64) false
          ∷ col "enabled" boolean false
          ∷ col "sensitivity" (string 32) false
          ∷ timestamps;
      primary_key = "id" ∷ [];
      constraints = unique_on "uq_tools_name_version" ("name" ∷ "version" ∷ []) ∷ [];
      indexes = [];
    })
    ∷ []

abbrev pub create_tool_executions : List Op
create_tool_executions =
    create_table (record {
      name = "tool_executions";
      columns =
          pk
          ∷ fk "tool_executions" "run_id" "agent_runs.id" false none
          ∷ fk "tool_executions" "tool_id" "tools.id" true none
          ∷ col "name" (string 128) false
          ∷ col "status" (string 32) false
          ∷ col "input" json false
          ∷ col "output" json true
          ∷ col "failure_reason" text true
          ∷ timestamps;
      primary_key = "id" ∷ [];
      constraints = [];
      indexes = [];
    })
    ∷ index_on "tool_executions" "ix_tool_executions_run_id" ("run_id" ∷ []) false
    ∷ index_on "tool_executions" "ix_tool_executions_tool_id" ("tool_id" ∷ []) false
    ∷ index_on "tool_executions" "ix_tool_executions_status" ("status" ∷ []) false
    ∷ []
