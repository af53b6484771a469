-- ===== src/Migrations/Foundation/Content.antt =====
-- migrations/versions/20260824_0001_foundation.py: the tables memories to file_chunks.
use nexabot.Prelude.{false, none, List, [], ◌∷◌}
use nexabot.Migrations.Schema.{string, text, json, integer, big_integer, Op, create_table}
use nexabot.Migrations.Columns.{pk, fk, col, timestamps, index_on, unique_on}

abbrev pub create_memories : List Op
create_memories =
    create_table (record {
      name = "memories";
      columns =
          pk
          ∷ fk "memories" "owner_id" "users.id" false none
          ∷ col "type" (string 64) false
          ∷ col "status" (string 32) false
          ∷ timestamps;
      primary_key = "id" ∷ [];
      constraints = [];
      indexes = [];
    })
    ∷ index_on "memories" "ix_memories_owner_id" ("owner_id" ∷ []) false
    ∷ index_on "memories" "ix_memories_status" ("status" ∷ []) false
    ∷ index_on "memories" "ix_memories_owner_type" ("owner_id" ∷ "type" ∷ []) false
    ∷ []

abbrev pub create_memory_items : List Op
create_memory_items =
    create_table (record {
      name = "memory_items";
      columns =
          pk
          ∷ fk "memory_items" "memory_id" "memories.id" false none
          ∷ col "content" text false
          ∷ col "importance" integer false
          ∷ col "meta" json false
          ∷ timestamps;
      primary_key = "id" ∷ [];
      constraints = [];
      indexes = [];
    })
    ∷ index_on "memory_items" "ix_memory_items_memory_id" ("memory_id" ∷ []) false
    ∷ []

abbrev pub create_files : List Op
create_files =
    create_table (record {
      name = "files";
      columns =
          pk
          ∷ fk "files" "owner_id" "users.id" false none
          ∷ col "filename" (string 512) false
          ∷ col "mime_type" (string 255) false
          ∷ col "size_bytes" big_integer false
          ∷ col "checksum_sha256" (string 64) false
          ∷ col "storage_key" (string 1024) false
          ∷ col "processing_status" (string 32) false
          ∷ timestamps;
      primary_key = "id" ∷ [];
      constraints = unique_on "uq_files_storage_key" ("storage_key" ∷ []) ∷ [];
      indexes = [];
    })
    ∷ index_on "files" "ix_files_owner_id" ("owner_id" ∷ []) false
    ∷ index_on "files" "ix_files_processing_status" ("processing_status" ∷ []) false
    ∷ index_on "files" "ix_files_owner_status" ("owner_id" ∷ "processing_status" ∷ []) false
    ∷ []

abbrev pub create_file_chunks : List Op
create_file_chunks =
    create_table (record {
      name = "file_chunks";
      columns =
          pk
          ∷ fk "file_chunks" "file_id" "files.id" false none
          ∷ col "index" integer false
          ∷ col "content" text false
          ∷ col "meta" json false
          ∷ timestamps;
      primary_key = "id" ∷ [];
      constraints = unique_on "uq_file_chunks_file_index" ("file_id" ∷ "index" ∷ []) ∷ [];
      indexes = [];
    })
    ∷ index_on "file_chunks" "ix_file_chunks_file_id" ("file_id" ∷ []) false
    ∷ []
