-- ===== src/Tests/Fixture.antt =====
-- One user, one conversation, and a host whose clock stands still but for the readings.
use nexabot.Prelude.{◌+◌, none, some, List, [], ◌∷◌}
use nexabot.Prelude.Int.{pos}
use nexabot.Domain.Json.{Mapping, end}
use nexabot.Domain.Identity.{active}
use nexabot.Domain.Agent.{AgentRun, default_limits, running, succeeded}
use nexabot.Domain.Conversations.{Conversation, ConversationStatus, MessageRole}
use nexabot.Ports.Gateway.{Answer, responds}
use nexabot.Ports.Repositories.{IdempotencyState}
use nexabot.Database.Tables.{Db, ConversationRow, MessageRow, AgentRunRow, IdempotencyRow}
use nexabot.Database.World.{World, Host}
use nexabot.Application.AgentTurn.Command.{RunAgentTurnCommand, AgentTurnResult}

abbrev pub steady : Answer → Host
steady answer = record {
  clock = λ n. n;
  uuid = λ n. 100 + n;
  complete = λ n request. answer;
  others = λ n db. db;
  commit_fault = λ n. none;
}

abbrev pub conversation_row : ConversationRow
conversation_row = record {
  id = 3;
  owner_id = 2;
  status = ConversationStatus.active;
  title = none;
  meta = end;
  created_at = 0;
  updated_at = 0;
}

abbrev pub hello_row : MessageRow
hello_row = record {
  id = 7;
  conversation_id = 3;
  role = MessageRole.user;
  content = "hello";
  meta = end;
  created_at = 1;
}

abbrev pub running_row : AgentRunRow
running_row = record {
  id = 1;
  user_id = 2;
  conversation_id = 3;
  status = running;
  provider = "stub";
  model = "m";
  started_at = some 0;
  finished_at = none;
  failure_reason = none;
  final_response = none;
  usage_metadata = end;
  limits = default_limits;
}

abbrev pub stored_run : AgentRun
stored_run = record {
  id = 1;
  user_id = 2;
  conversation_id = 3;
  provider = "stub";
  model = "m";
  limits = default_limits;
  status = running;
  steps = [];
  started_at = some 0;
  finished_at = none;
  failure_reason = none;
  final_response = none;
  usage_metadata = end;
}

abbrev pub claim_row : IdempotencyState → Mapping → IdempotencyRow
claim_row state result = record {
  id = 9;
  namespace = "agent_run";
  key = "k";
  state = state;
  result = result;
  claimed_at = 0;
  claim_token = 8;
}

abbrev pub stored_db : List IdempotencyRow → Db
stored_db claims = record {
  users = record { id = 2; status = active; created_at = 0; updated_at = 0 } ∷ [];
  telegram_identities =
      record {
        id = 4;
        user_id = 2;
        telegram_user_id = pos 77;
        username = none;
        first_name = none;
        last_name = none;
      }
      ∷ [];
  roles = [];
  permissions = [];
  user_roles = [];
  role_permissions = [];
  conversations = conversation_row ∷ [];
  messages = hello_row ∷ [];
  agent_runs = running_row ∷ [];
  agent_steps = [];
  idempotency_records = claims;
}

abbrev pub world_with : Answer → List IdempotencyRow → World
world_with answer claims = record {
  host = steady answer;
  db = stored_db claims;
  reads = 0;
  drawn = 0;
  begun = 0;
  sent = [];
}

abbrev pub answer_hi : Answer
answer_hi = responds 1 (record {
  content = some "hi";
  tool_calls = [];
  usage = record { input_tokens = 1; output_tokens = 1; total_tokens = 2 };
  provider_metadata = end;
})

abbrev pub ask : RunAgentTurnCommand
ask = record {
  telegram_user_id = pos 77;
  conversation_id = 3;
  text = "what";
  provider = "stub";
  model = "m";
  limits = default_limits;
  idempotency_key = some "k";
  context_window = pos 20;
}

abbrev pub stored_result : AgentTurnResult
stored_result = record {
  agent_run_id = 1;
  conversation_id = 3;
  assistant_message_id = 8;
  response = "hi";
  status = succeeded;
  usage_metadata = end;
}

abbrev pub loaded_conversation : Conversation
loaded_conversation = record {
  id = 3;
  owner_id = 2;
  status = ConversationStatus.active;
  title = none;
  messages =
      record {
        id = 7;
        conversation_id = 3;
        role = MessageRole.user;
        content = "hello";
        metadata = end;
        created_at = 1;
      }
      ∷ [];
  metadata = end;
  created_at = 0;
  updated_at = 0;
  history_window = none;
}
