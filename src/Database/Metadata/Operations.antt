-- ===== src/Database/Metadata/Operations.antt =====
-- infrastructure/database/models.py: the tables usage_records to audit_logs as the mapping declares them.
use nexabot.Prelude.{true, false, none, [], ◌∷◌}
use nexabot.Migrations.Schema.{string, text, json, integer, date_time, Table}
use nexabot.Migrations.Columns.{
  pk, fk, col, timestamps, unique_on, plain_index, column_index, check_on,
}

abbrev pub usage_records_table : Table
usage_records_table = record {
  name = "usage_records";
  columns =
      pk
      ∷ fk "usage_records" "user_id" "users.id" false none
      ∷ col "dimension" (string 64) false
      ∷ col "amount" integer false
      ∷ col "period" (string 32) false
      ∷ col "meta" json false
      ∷ timestamps;
  primary_key = "id" ∷ [];
  constraints = [];
  indexes =
      column_index "usage_records" "user_id" false
      ∷ plain_index "ix_usage_records_user_dimension_period"
          ("user_id" ∷ "dimension" ∷ "period" ∷ [])
      ∷ [];
}

abbrev pub subscriptions_table : Table
subscriptions_table = record {
  name = "subscriptions";
  columns =
      pk
      ∷ fk "subscriptions" "user_id" "users.id" false none
      ∷ col "plan" (string 64) false
      ∷ col "status" (string 32) false
      ∷ col "valid_until" date_time true
      ∷ timestamps;
  primary_key = "id" ∷ [];
  constraints = [];
  indexes =
      column_index "subscriptions" "user_id" false
      ∷ column_index "subscriptions" "status" false
      ∷ [];
}

abbrev pub tasks_table : Table
tasks_table = record {
  name = "tasks";
  columns =
      pk
      ∷ col "type" (string 128) false
      ∷ col "state" (string 32) false
      ∷ col "payload" json false
      ∷ col "attempts" integer false
      ∷ col "max_attempts" integer false
      ∷ col "idempotency_key" (string 255) true
      ∷ col "last_error" text true
      ∷ timestamps;
  primary_key = "id" ∷ [];
  constraints = unique_on "uq_tasks_type_idempotency_key" ("type" ∷ "idempotency_key" ∷ []) ∷ [];
  indexes = column_index "tasks" "type" false ∷ column_index "tasks" "state" false ∷ [];
}

abbrev pub task_attempts_table : Table
task_attempts_table = record {
  name = "task_attempts";
  columns =
      pk
      ∷ fk "task_attempts" "task_id" "tasks.id" false none
      ∷ col "attempt_number" integer false
      ∷ col "status" (string 32) false
      ∷ col "error" text true
      ∷ timestamps;
  primary_key = "id" ∷ [];
  constraints = unique_on "uq_task_attempts_task_attempt" ("task_id" ∷ "attempt_number" ∷ []) ∷ [];
  indexes = column_index "task_attempts" "task_id" false ∷ [];
}

abbrev pub idempotency_records_table : Table
idempotency_records_table = record {
  name = "idempotency_records";
  columns =
      pk
      ∷ col "namespace" (string 128) false
      ∷ col "key" (string 255) false
      ∷ col "state" (string 32) false
      ∷ col "result" json false
      ∷ col "claimed_at" date_time false
      ∷ col "claim_token" (string 36) false
      ∷ timestamps;
  primary_key = "id" ∷ [];
  constraints =
      unique_on "uq_idempotency_namespace_key" ("namespace" ∷ "key" ∷ [])
      ∷ check_on "idempotency_records" "idempotency_state_valid"
          "state IN ('started', 'completed', 'failed')"
      ∷ [];
  indexes =
      column_index "idempotency_records" "state" false
      ∷ plain_index "ix_idempotency_records_state_claimed_at" ("state" ∷ "claimed_at" ∷ [])
      ∷ [];
}

abbrev pub audit_logs_table : Table
audit_logs_table = record {
  name = "audit_logs";
  columns =
      pk
      ∷ fk "audit_logs" "actor_user_id" "users.id" true none
      ∷ col "action" (string 128) false
      ∷ col "target_type" (string 128) true
      ∷ col "target_id" (string 128) true
      ∷ col "outcome" (string 32) false
      ∷ col "meta" json false
      ∷ timestamps;
  primary_key = "id" ∷ [];
  constraints = [];
  indexes =
      column_index "audit_logs" "actor_user_id" false
      ∷ column_index "audit_logs" "action" false
      ∷ [];
}
