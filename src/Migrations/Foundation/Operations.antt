-- ===== src/Migrations/Foundation/Operations.antt =====
-- migrations/versions/20260824_0001_foundation.py: the tables usage_records to audit_logs.
use nexabot.Prelude.{true, false, none, List, [], ◌∷◌}
use nexabot.Migrations.Schema.{string, text, json, integer, date_time, Op, create_table}
use nexabot.Migrations.Columns.{pk, fk, col, timestamps, index_on, unique_on}

abbrev pub create_usage_records : List Op
create_usage_records =
    create_table (record {
      name = "usage_records";
      columns =
          pk
          ∷ fk "usage_records" "user_id" "users.id" false none
          ∷ col "dimension" (string 64) false
          ∷ col "amount" integer false
          ∷ col "period" (string 32) false
          ∷ col "meta" json false
          ∷ timestamps;
      primary_key = "id" ∷ [];
      constraints = [];
      indexes = [];
    })
    ∷ index_on "usage_records" "ix_usage_records_user_id" ("user_id" ∷ []) false
    ∷ index_on "usage_records" "ix_usage_records_user_dimension_period"
        ("user_id" ∷ "dimension" ∷ "period" ∷ []) false
    ∷ []

abbrev pub create_subscriptions : List Op
create_subscriptions =
    create_table (record {
      name = "subscriptions";
      columns =
          pk
          ∷ fk "subscriptions" "user_id" "users.id" false none
          ∷ col "plan" (string 64) false
          ∷ col "status" (string 32) false
          ∷ col "valid_until" date_time true
          ∷ timestamps;
      primary_key = "id" ∷ [];
      constraints = [];
      indexes = [];
    })
    ∷ index_on "subscriptions" "ix_subscriptions_user_id" ("user_id" ∷ []) false
    ∷ index_on "subscriptions" "ix_subscriptions_status" ("status" ∷ []) false
    ∷ []

abbrev pub create_tasks : List Op
create_tasks =
    create_table (record {
      name = "tasks";
      columns =
          pk
          ∷ col "type" (string 128) false
          ∷ col "state" (string 32) false
          ∷ col "payload" json false
          ∷ col "attempts" integer false
          ∷ col "max_attempts" integer false
          ∷ col "idempotency_key" (string 255) true
          ∷ col "last_error" text true
          ∷ timestamps;
      primary_key = "id" ∷ [];
      constraints =
          unique_on "uq_tasks_type_idempotency_key" ("type" ∷ "idempotency_key" ∷ []) ∷ [];
      indexes = [];
    })
    ∷ index_on "tasks" "ix_tasks_type" ("type" ∷ []) false
    ∷ index_on "tasks" "ix_tasks_state" ("state" ∷ []) false
    ∷ []

abbrev pub create_task_attempts : List Op
create_task_attempts =
    create_table (record {
      name = "task_attempts";
      columns =
          pk
          ∷ fk "task_attempts" "task_id" "tasks.id" false none
          ∷ col "attempt_number" integer false
          ∷ col "status" (string 32) false
          ∷ col "error" text true
          ∷ timestamps;
      primary_key = "id" ∷ [];
      constraints =
          unique_on "uq_task_attempts_task_attempt" ("task_id" ∷ "attempt_number" ∷ []) ∷ [];
      indexes = [];
    })
    ∷ index_on "task_attempts" "ix_task_attempts_task_id" ("task_id" ∷ []) false
    ∷ []

abbrev pub create_idempotency_records : List Op
create_idempotency_records =
    create_table (record {
      name = "idempotency_records";
      columns =
          pk
          ∷ col "namespace" (string 128) false
          ∷ col "key" (string 255) false
          ∷ col "state" (string 32) false
          ∷ col "result" json false
          ∷ timestamps;
      primary_key = "id" ∷ [];
      constraints = unique_on "uq_idempotency_namespace_key" ("namespace" ∷ "key" ∷ []) ∷ [];
      indexes = [];
    })
    ∷ index_on "idempotency_records" "ix_idempotency_records_state" ("state" ∷ []) false
    ∷ []

abbrev pub create_audit_logs : List Op
create_audit_logs =
    create_table (record {
      name = "audit_logs";
      columns =
          pk
          ∷ fk "audit_logs" "actor_user_id" "users.id" true none
          ∷ col "action" (string 128) false
          ∷ col "target_type" (string 128) true
          ∷ col "target_id" (string 128) true
          ∷ col "outcome" (string 32) false
          ∷ col "meta" json false
          ∷ timestamps;
      primary_key = "id" ∷ [];
      constraints = [];
      indexes = [];
    })
    ∷ index_on "audit_logs" "ix_audit_logs_actor_user_id" ("actor_user_id" ∷ []) false
    ∷ index_on "audit_logs" "ix_audit_logs_action" ("action" ∷ []) false
    ∷ []
