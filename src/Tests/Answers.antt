-- ===== src/Tests/Answers.antt =====
-- A turn from the command to the database that its answer leaves behind.
use nexabot.Prelude.{◌≡◌, refl, none, some, is_empty, is_space, strip, len, [], ◌∷◌, ◌++◌}
use nexabot.Domain.Json.{Json, end, entry}
use nexabot.Domain.Agent.{
  AgentRun, default_limits, running, succeeded, planning, model_call, validation, final_response,
  new_run, start, record_step, tool_call_count, count_tool_calls, ensure_step_budget,
}
use nexabot.Domain.Identity.{make_telegram_identity}
use nexabot.Domain.Identity as User
use nexabot.Domain.Conversations.{
  Conversation, recent_messages, MessageRole, make_message, ensure_active,
}
use nexabot.Domain.Conversations as Entity
use nexabot.Domain.Context.{estimate_tokens, select_within_token_budget}
use nexabot.Ports.Gateway.{LlmRequest, LlmResponse}
use nexabot.Ports.Repositories.{completed, validate_message_window}
use nexabot.Database.Tables.{
  Db, AgentRunRow, limits_positive, message_accepted, run_accepted, run_checked, step_accepted,
}
use nexabot.Database.World.{World, utc_now, uuid4}
use nexabot.Database.UnitOfWork.{enter, exit, commit, transaction}
use nexabot.Database.Users
use nexabot.Database.Users.Roles.{load_roles, load_role_rows}
use nexabot.Database.Idempotency
use nexabot.Database.Conversations
use nexabot.Database.AgentRuns
use nexabot.Application.Identity.{resolve_current_actor}
use nexabot.Application.AgentTurn.Command.{Claim, AgentTurnResult, validate_input, check_text}
use nexabot.Application.AgentTurn.Request.{
  build_request, request_of, request_with, validate_response,
}
use nexabot.Application.AgentTurn.Phases.{
  judge, check_idempotency, start_turn, start_body, owned_conversation, append_user_message,
  started_run, remaining,
}
use nexabot.Application.AgentTurn.Stored.{result_to_stored}
use nexabot.Application.AgentTurn.Execute.{execute}
use nexabot.Application.AgentTurn.Answering.{execute_answers}
use nexabot.Tests.Fixture.{
  world_with, stored_db, answer_hi, ask, running_row, loaded_conversation, hello_row,
}
use nexabot.Exec.{ok}

abbrev first_claim : Claim
first_claim = record { key = "k"; token = 100 }

abbrev asking : World
asking = world_with answer_hi []

abbrev starting : World
starting = (check_idempotency "k" asking).1

abbrev now : World
now = (start_turn ask "what" starting).1

abbrev conversation : Conversation
conversation = record loaded_conversation {
  messages =
      loaded_conversation.messages
      ++ record {
        id = 102;
        conversation_id = 3;
        role = MessageRole.user;
        content = "what";
        metadata = end;
        created_at = 1;
      }
        ∷ [];
  updated_at = 2;
}

abbrev run : AgentRun
run = record {
  id = 103;
  user_id = 2;
  conversation_id = 3;
  provider = "stub";
  model = "m";
  limits = default_limits;
  status = running;
  steps =
      record { id = 104; run_id = 103; index = 1; type = planning; metadata = end; created_at = 4 }
      ∷ record {
        id = 105;
        run_id = 103;
        index = 2;
        type = model_call;
        metadata = end;
        created_at = 5;
      }
      ∷ [];
  started_at = some 3;
  finished_at = none;
  failure_reason = none;
  final_response = none;
  usage_metadata = end;
}

abbrev run_row : AgentRunRow
run_row = record running_row { id = 103; started_at = some 3 }

abbrev request : LlmRequest
request = request_with "p" ask conversation.messages

abbrev said_hi : LlmResponse
said_hi = record {
  content = some "hi";
  tool_calls = [];
  usage = record { input_tokens = 1; output_tokens = 1; total_tokens = 2 };
  provider_metadata = end;
}

abbrev answer : AgentTurnResult
answer = record {
  agent_run_id = 103;
  conversation_id = 3;
  assistant_message_id = 106;
  response = "hi";
  status = succeeded;
  usage_metadata =
      entry "input_tokens" (Json.num 1)
        (entry "output_tokens" (Json.num 1) (entry "total_tokens" (Json.num 2) end));
}

abbrev answered_db : Db
answered_db = record (stored_db []) {
  messages =
      hello_row
      ∷ record {
        id = 102;
        conversation_id = 3;
        role = MessageRole.user;
        content = "what";
        meta = end;
        created_at = 1;
      }
      ∷ record {
        id = 106;
        conversation_id = 3;
        role = MessageRole.assistant;
        content = "hi";
        meta = end;
        created_at = 7;
      }
      ∷ [];
  agent_runs =
      running_row
      ∷ record run_row {
        status = succeeded;
        finished_at = some 11;
        final_response = some "hi";
        usage_metadata = answer.usage_metadata;
      }
      ∷ [];
  agent_steps =
      record { id = 104; run_id = 103; index = 1; type = planning; meta = end; created_at = 4 }
      ∷ record { id = 105; run_id = 103; index = 2; type = model_call; meta = end; created_at = 5 }
      ∷ record { id = 107; run_id = 103; index = 3; type = validation; meta = end; created_at = 9 }
      ∷ record {
        id = 108;
        run_id = 103;
        index = 4;
        type = final_response;
        meta = end;
        created_at = 10;
      }
      ∷ [];
  idempotency_records =
      record {
        id = 101;
        namespace = "agent_run";
        key = "k";
        state = completed;
        result = result_to_stored answer;
        claimed_at = 0;
        claim_token = 100;
      }
      ∷ [];
}

execute_answers_example : execute "p" ask asking ≡ (
  ok answer,
  record asking { db = answered_db; reads = 12; drawn = 9; begun = 3; sent = request ∷ [] },
)
unfolding build_request request_of recent_messages select_within_token_budget estimate_tokens len
    remaining validate_response strip is_empty is_space enter AgentRuns.highest_index
    Idempotency.settle_row limits_positive start_turn transaction exit commit start_body
    resolve_current_actor Users.get_by_telegram_identity Users.to_domain load_roles load_role_rows
    make_telegram_identity User.ensure_active owned_conversation Conversations.get
    Conversations.to_domain validate_message_window Conversations.load_messages
    Conversations.messages_to_domain Conversations.message_page Conversations.newest_first
    Conversations.insert_newest_first Conversations.message_to_domain make_message
    append_user_message Entity.append_message Conversations.append_message message_accepted
    started_run uuid4 utc_now new_run start record_step AgentRuns.add AgentRuns.insert_run
    AgentRuns.row_of run_accepted run_checked AgentRuns.append_steps AgentRuns.append_step
    step_accepted ensure_active tool_call_count count_tool_calls ensure_step_budget
    check_idempotency judge Idempotency.start Idempotency.create_claim Idempotency.after_insert
    Idempotency.get_row Idempotency.insert_claim validate_input check_text
execute_answers_example =
    execute_answers "p" ask "what" (some first_claim) conversation run asking starting now request
      said_hi 1 "hi" run_row refl (first_claim, refl, refl) refl refl refl refl refl refl refl refl
      refl refl refl refl refl refl refl refl refl
