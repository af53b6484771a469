-- ===== src/Database/Metadata/Content.antt =====
-- infrastructure/database/models.py: the tables tools to file_chunks as the mapping declares them.
use nexabot.Prelude.{true, false, none, [], ◌∷◌}
use nexabot.Migrations.Schema.{string, text, json, integer, big_integer, boolean, Table}
use nexabot.Migrations.Columns.{
  pk, fk, col, timestamps, unique_on, plain_index, column_index, unique_name,
}

abbrev pub tools_table : Table
tools_table = record {
  name = "tools";
  columns =
      pk
      ∷ col "name" (string 128) false
      ∷ col "version" (string 64) false
      ∷ col "enabled" boolean false
      ∷ col "sensitivity" (string 32) false
      ∷ timestamps;
  primary_key = "id" ∷ [];
  constraints = unique_on "uq_tools_name_version" ("name" ∷ "version" ∷ []) ∷ [];
  indexes = [];
}

abbrev pub tool_executions_table : Table
tool_executions_table = record {
  name = "tool_executions";
  columns =
      pk
      ∷ fk "tool_executions" "run_id" "agent_runs.id" false none
      ∷ fk "tool_executions" "tool_id" "tools.id" true none
      ∷ col "name" (string 128) false
      ∷ col "status" (string 32) false
      ∷ col "input" json false
      ∷ col "output" json true
      ∷ col "failure_reason" text true
      ∷ timestamps;
  primary_key = "id" ∷ [];
  constraints = [];
  indexes =
      column_index "tool_executions" "run_id" false
      ∷ column_index "tool_executions" "tool_id" false
      ∷ column_index "tool_executions" "status" false
      ∷ [];
}

abbrev pub memories_table : Table
memories_table = record {
  name = "memories";
  columns =
      pk
      ∷ fk "memories" "owner_id" "users.id" false none
      ∷ col "type" (string 64) false
      ∷ col "status" (string 32) false
      ∷ timestamps;
  primary_key = "id" ∷ [];
  constraints = [];
  indexes =
      column_index "memories" "owner_id" false
      ∷ column_index "memories" "status" false
      ∷ plain_index "ix_memories_owner_type" ("owner_id" ∷ "type" ∷ [])
      ∷ [];
}

abbrev pub memory_items_table : Table
memory_items_table = record {
  name = "memory_items";
  columns =
      pk
      ∷ fk "memory_items" "memory_id" "memories.id" false none
      ∷ col "content" text false
      ∷ col "importance" integer false
      ∷ col "meta" json false
      ∷ timestamps;
  primary_key = "id" ∷ [];
  constraints = [];
  indexes = column_index "memory_items" "memory_id" false ∷ [];
}

abbrev pub files_table : Table
files_table = record {
  name = "files";
  columns =
      pk
      ∷ fk "files" "owner_id" "users.id" false none
      ∷ col "filename" (string 512) false
      ∷ col "mime_type" (string 255) false
      ∷ col "size_bytes" big_integer false
      ∷ col "checksum_sha256" (string 64) false
      ∷ col "storage_key" (string 1024) false
      ∷ col "processing_status" (string 32) false
      ∷ timestamps;
  primary_key = "id" ∷ [];
  constraints = unique_on (unique_name "files" "storage_key") ("storage_key" ∷ []) ∷ [];
  indexes =
      column_index "files" "owner_id" false
      ∷ column_index "files" "processing_status" false
      ∷ plain_index "ix_files_owner_status" ("owner_id" ∷ "processing_status" ∷ [])
      ∷ [];
}

abbrev pub file_chunks_table : Table
file_chunks_table = record {
  name = "file_chunks";
  columns =
      pk
      ∷ fk "file_chunks" "file_id" "files.id" false none
      ∷ col "index" integer false
      ∷ col "content" text false
      ∷ col "meta" json false
      ∷ timestamps;
  primary_key = "id" ∷ [];
  constraints = unique_on "uq_file_chunks_file_index" ("file_id" ∷ "index" ∷ []) ∷ [];
  indexes = column_index "file_chunks" "file_id" false ∷ [];
}
