-- ===== src/Database/Tables.antt =====
-- infrastructure/database/models.py: the tables that the repositories use, and their constraints.
-- A column that a CHECK constraint limits to the values of an enum holds that enum.
use nexabot.Prelude.{
  ℕ, String, Bool, true, false, not, ◌&&◌, ◌||◌, Option, List, any, ltb, ◌==◌, is_empty, is_some,
}
use nexabot.Prelude.Int.{ℤ}
use nexabot.Domain.Json.{Mapping}
use nexabot.Domain.Identity.{UserStatus}
use nexabot.Domain.Conversations.{ConversationStatus, MessageRole}
use nexabot.Domain.Agent.{
  AgentLimits, AgentRunStatus, succeeded, failed, is_terminal, AgentStepType,
}
use nexabot.Ports.Repositories.{IdempotencyState}

pub record UserRow : Type 0 where
  pub id : ℕ
  pub status : UserStatus
  pub created_at : ℕ
  pub updated_at : ℕ

pub record TelegramIdentityRow : Type 0 where
  pub id : ℕ
  pub user_id : ℕ
  pub telegram_user_id : ℤ
  pub username : Option String
  pub first_name : Option String
  pub last_name : Option String

pub record RoleRow : Type 0 where
  pub id : ℕ
  pub name : String

pub record PermissionRow : Type 0 where
  pub id : ℕ
  pub namespace : String
  pub action : String

-- `user_roles` and `role_permissions`
pub record Link : Type 0 where
  pub from : ℕ
  pub target : ℕ

pub record ConversationRow : Type 0 where
  pub id : ℕ
  pub owner_id : ℕ
  pub status : ConversationStatus
  pub title : Option String
  pub meta : Mapping
  pub created_at : ℕ
  pub updated_at : ℕ

pub record MessageRow : Type 0 where
  pub id : ℕ
  pub conversation_id : ℕ
  pub role : MessageRole
  pub content : String
  pub meta : Mapping
  pub created_at : ℕ

-- The five columns `max_...` are one field.
pub record AgentRunRow : Type 0 where
  pub id : ℕ
  pub user_id : ℕ
  pub conversation_id : ℕ
  pub status : AgentRunStatus
  pub provider : String
  pub model : String
  pub started_at : Option ℕ
  pub finished_at : Option ℕ
  pub failure_reason : Option String
  pub final_response : Option String
  pub usage_metadata : Mapping
  pub limits : AgentLimits

pub record AgentStepRow : Type 0 where
  pub id : ℕ
  pub run_id : ℕ
  pub index : ℕ
  pub type : AgentStepType
  pub meta : Mapping
  pub created_at : ℕ

pub record IdempotencyRow : Type 0 where
  pub id : ℕ
  pub namespace : String
  pub key : String
  pub state : IdempotencyState
  pub result : Mapping
  pub claimed_at : ℕ
  pub claim_token : ℕ

pub record Db : Type 0 where
  pub users : List UserRow
  pub telegram_identities : List TelegramIdentityRow
  pub roles : List RoleRow
  pub permissions : List PermissionRow
  pub user_roles : List Link
  pub role_permissions : List Link
  pub conversations : List ConversationRow
  pub messages : List MessageRow
  pub agent_runs : List AgentRunRow
  pub agent_steps : List AgentStepRow
  pub idempotency_records : List IdempotencyRow

-- The tests of the queries.
abbrev pub is_user : ℕ → UserRow → Bool
is_user id r = r.id == id

abbrev pub is_conversation : ℕ → ConversationRow → Bool
is_conversation id r = r.id == id

abbrev pub is_message : ℕ → MessageRow → Bool
is_message id r = r.id == id

abbrev pub is_run : ℕ → AgentRunRow → Bool
is_run id r = r.id == id

-- "content <> ''", the primary key and the foreign key
unfoldable pub message_accepted : MessageRow → Db → Bool
message_accepted m db =
    not (is_empty m.content)
    && not (any (is_message m.id) db.messages)
    && any (is_conversation m.conversation_id) db.conversations

abbrev pub is_succeeded : AgentRunStatus → Bool
is_succeeded succeeded = true
is_succeeded _ = false

abbrev pub is_failed : AgentRunStatus → Bool
is_failed failed = true
is_failed _ = false

-- "agent_run_limits_positive"
unfoldable pub limits_positive : AgentLimits → Bool
limits_positive l =
    ltb 0 l.max_steps
    && ltb 0 l.max_tool_calls
    && ltb 0 l.max_retries
    && ltb 0 l.max_execution_seconds
    && ltb 0 l.max_context_tokens

-- "agent_run_terminal_state_recorded"
unfoldable pub terminal_state_recorded : AgentRunRow → Bool
terminal_state_recorded r =
    (not (is_terminal r.status) || is_some r.finished_at)
    && (not (is_succeeded r.status) || is_some r.final_response)
    && (not (is_failed r.status) || is_some r.failure_reason)

-- The CHECK constraints of a run, on an INSERT and on an UPDATE.
unfoldable pub run_checked : AgentRunRow → Bool
unfolding limits_positive terminal_state_recorded
run_checked r = limits_positive r.limits && terminal_state_recorded r

unfoldable pub run_accepted : AgentRunRow → Db → Bool
unfolding run_checked
run_accepted r db =
    run_checked r
    && not (any (is_run r.id) db.agent_runs)
    && any (is_user r.user_id) db.users
    && any (is_conversation r.conversation_id) db.conversations

abbrev pub is_step_at : ℕ → ℕ → AgentStepRow → Bool
is_step_at run_id index r = r.run_id == run_id && r.index == index

-- The primary key, the unique pair (run_id, index), the foreign key and "index >= 1".
unfoldable pub step_accepted : AgentStepRow → Db → Bool
step_accepted s db =
    ltb 0 s.index
    && not (any (λ (r : AgentStepRow). r.id == s.id) db.agent_steps)
    && not (any (is_step_at s.run_id s.index) db.agent_steps)
    && any (is_run s.run_id) db.agent_runs
