-- ===== src/Migrations/Revisions.antt =====
-- migrations/versions: the four revisions after the first.
use nexabot.Prelude.{String, true, false, some, none, List, [], ◌∷◌, map, reverse}
use nexabot.Migrations.Schema.{
  string, text, integer, date_time, add_column, drop_column, alter_default, alter_nullable,
  create_index, drop_index, update_rows, Op, on_table,
}
use nexabot.Migrations.Columns.{col, plain_index, create_check, drop_check}

abbrev runs : String
runs = "agent_runs"

-- A limit with the default that fills the rows that exist.
abbrev limit_with : String → String → Op
limit_with name default =
    on_table runs (add_column (record (col name integer false) { server_default = some default }))

abbrev without_default : String → Op
without_default name = on_table runs (alter_default name none)

-- 20260908_0002_agent_run_limits.py
unfoldable pub upgrade_limits : List Op
upgrade_limits =
    limit_with "max_steps" "12"
    ∷ limit_with "max_tool_calls" "6"
    ∷ limit_with "max_retries" "2"
    ∷ limit_with "max_execution_seconds" "60"
    ∷ limit_with "max_context_tokens" "12000"
    ∷ on_table runs (add_column (col "final_response" text true))
    ∷ without_default "max_steps"
    ∷ without_default "max_tool_calls"
    ∷ without_default "max_retries"
    ∷ without_default "max_execution_seconds"
    ∷ without_default "max_context_tokens"
    ∷ []

abbrev drop_from : String → String → Op
drop_from table name = on_table table (drop_column name)

unfoldable pub downgrade_limits : List Op
downgrade_limits =
    drop_from runs "final_response"
    ∷ drop_from runs "max_context_tokens"
    ∷ drop_from runs "max_execution_seconds"
    ∷ drop_from runs "max_retries"
    ∷ drop_from runs "max_tool_calls"
    ∷ drop_from runs "max_steps"
    ∷ []

abbrev records : String
records = "idempotency_records"

-- 20260917_0003_idempotency_claims.py
unfoldable pub upgrade_claims : List Op
upgrade_claims =
    on_table records
      (add_column (record (col "claimed_at" date_time false) { server_default = some "now()" }))
    ∷ on_table records (alter_default "claimed_at" none)
    ∷ on_table records (
        create_index
          (plain_index "ix_idempotency_records_state_claimed_at" ("state" ∷ "claimed_at" ∷ [])))
    ∷ []

unfoldable pub downgrade_claims : List Op
downgrade_claims =
    on_table records (drop_index "ix_idempotency_records_state_claimed_at")
    ∷ drop_from records "claimed_at"
    ∷ []

abbrev state_check : String × String × String
state_check = (records, "idempotency_state_valid", "state IN ('started', 'completed', 'failed')")

-- 20260924_0004_idempotency_claim_token.py
unfoldable pub upgrade_token : List Op
upgrade_token =
    on_table records (add_column (col "claim_token" (string 36) true))
    ∷ on_table records update_rows
    ∷ on_table records (alter_nullable "claim_token" false)
    ∷ create_check state_check
    ∷ []

unfoldable pub downgrade_token : List Op
downgrade_token = drop_check state_check ∷ drop_from records "claim_token" ∷ []

-- `_CHECKS` of 20260924_0005_domain_check_constraints.py
abbrev pub checks : List (String × String × String)
checks =
    ("users", "user_status_valid", "status IN ('active', 'banned', 'disabled')")
    ∷ ("conversations", "conversation_status_valid", "status IN ('active', 'archived', 'deleted')")
    ∷ ("messages", "message_role_valid", "role IN ('system', 'user', 'assistant', 'tool')")
    ∷ ("messages", "message_content_not_empty", "content <> ''")
    ∷ (
      "agent_runs", "agent_run_status_valid",
      "status IN ('pending', 'running', 'succeeded', 'failed', 'cancelled')",
    )
    ∷ (
      "agent_runs", "agent_run_limits_positive",
      "max_steps > 0 AND max_tool_calls > 0 AND max_retries > 0 AND max_execution_seconds > 0 AND max_context_tokens > 0",
    )
    ∷ (
      "agent_runs", "agent_run_terminal_state_recorded",
      "(status NOT IN ('succeeded', 'failed', 'cancelled') OR finished_at IS NOT NULL) AND (status <> 'succeeded' OR final_response IS NOT NULL) AND (status <> 'failed' OR failure_reason IS NOT NULL)",
    )
    ∷ ("agent_steps", "agent_step_index_positive", "\"index\" >= 1")
    ∷ []

unfoldable pub upgrade_checks : List Op
upgrade_checks = map create_check checks

unfoldable pub downgrade_checks : List Op
downgrade_checks = map drop_check (reverse checks)
