-- ===== src/Tests/Stored.antt =====
-- What a turn finds and leaves in the database.
use nexabot.Prelude.{
  inl, ℕ, ◌≡◌, refl, ◌+◌, ◌==◌, if◌then◌else◌, none, some, [], ◌∷◌, is_empty, strip, is_space, len,
}
use nexabot.Domain.Json.{end}
use nexabot.Domain.Agent.{
  AgentRun, AgentStep, planning, model_call, running, default_limits, new_run, start, record_step,
  tool_call_count, count_tool_calls, ensure_step_budget,
}
use nexabot.Domain.Conversations.{Conversation, Message, MessageRole, make_message}
use nexabot.Domain.Conversations as Entity
use nexabot.Domain.Identity.{make_telegram_identity, ensure_active}
use nexabot.Ports.Repositories.{started, validate_message_window}
use nexabot.Database.Tables.{message_accepted, run_accepted, run_checked, step_accepted}
use nexabot.Database.World.{World, uuid4, utc_now}
use nexabot.Database.UnitOfWork.{enter, transaction, exit, commit}
use nexabot.Database.Idempotency
use nexabot.Database.Conversations
use nexabot.Database.AgentRuns
use nexabot.Database.AgentRuns.Reading.{add-get}
use nexabot.Database.Users
use nexabot.Database.Users.Roles.{load_roles, load_role_rows}
use nexabot.Application.Identity.{resolve_current_actor}
use nexabot.Database.Idempotency.Claims.{IsKeyed}
use nexabot.Database.Idempotency.Granting.{IsOwned, start-IsOwned, IsGrant, start-IsGrant}
use nexabot.Application.AgentTurn.Command.{Claim, validate_input}
use nexabot.Application.AgentTurn.Finish.{persist_body}
use nexabot.Application.AgentTurn.Phases.{
  start_turn, start_body, owned_conversation, append_user_message, started_run,
}
use nexabot.Application.AgentTurn.Authority.{IsAuthorized, start_turn-IsAuthorized}
use nexabot.Application.AgentTurn.Answered.{message_row, Completes, persist-Answers}
use nexabot.Application.AgentTurn.Repetition.{stored_result_repeats}
use nexabot.Application.AgentTurn.Execute.{execute}
use nexabot.Domain.Context.{estimate_tokens}
use nexabot.Exec.{ok}
use nexabot.Tests.Fixture.{
  world_with, claim_row, answer_hi, ask, stored_result, stored_run, loaded_conversation, hello_row,
}

abbrev own_claim : Claim
own_claim = record { key = "k"; token = 8 }

abbrev claimed_world : World
claimed_world = world_with answer_hi (claim_row started end ∷ [])

one_claim : IsKeyed (claim_row started end ∷ [])
one_claim = record { keys = λ namespace key. (λ _. refl, tt); ids = λ id. (λ _. refl, tt) }

start-IsGrant_example :
    IsGrant "agent_run" "k"
      (claim_row started end ∷ [])
      (Idempotency.start "agent_run" "k" 300 claimed_world)
start-IsGrant_example = start-IsGrant "agent_run" "k" 300 claimed_world one_claim

abbrev reply : Message
reply = record {
  id = 8;
  conversation_id = 3;
  role = MessageRole.assistant;
  content = "hi";
  metadata = end;
  created_at = 2;
}

persist-Answers_example :
    (hello_row ∷ message_row reply ∷ [] ≡ hello_row ∷ message_row reply ∷ [])
    × Completes own_claim stored_result
        (claim_row started end ∷ [])
        (transaction
          (persist_body reply stored_run (some own_claim) stored_result)
          claimed_world).1.db.idempotency_records
unfolding enter transaction persist_body exit Conversations.append_message message_accepted is_empty
    AgentRuns.save AgentRuns.update_run run_checked AgentRuns.append_steps AgentRuns.new_steps
    Idempotency.complete Idempotency.settle Idempotency.settle_row commit
persist-Answers_example =
    persist-Answers reply stored_run own_claim stored_result claimed_world
      (transaction (persist_body reply stored_run (some own_claim) stored_result) claimed_world).1
      one_claim refl

abbrev answered_world : World
answered_world =
    (transaction (persist_body reply stored_run (some own_claim) stored_result) claimed_world).1

stored_result_repeats_example :
    execute "p" ask answered_world ≡ (ok stored_result, enter answered_world)
unfolding enter transaction persist_body exit Conversations.append_message message_accepted is_empty
    AgentRuns.save AgentRuns.update_run run_checked AgentRuns.append_steps AgentRuns.new_steps
    Idempotency.complete Idempotency.settle Idempotency.settle_row commit validate_input
    estimate_tokens strip is_space len
stored_result_repeats_example =
    stored_result_repeats "p" ask "what" reply stored_run own_claim stored_result claimed_world
      answered_world one_claim refl refl refl refl refl

abbrev asked : Conversation
asked = record loaded_conversation {
  messages =
      record {
        id = 7;
        conversation_id = 3;
        role = MessageRole.user;
        content = "hello";
        metadata = end;
        created_at = 1;
      }
      ∷ record {
        id = 100;
        conversation_id = 3;
        role = MessageRole.user;
        content = "what";
        metadata = end;
        created_at = 0;
      }
      ∷ [];
  updated_at = 1;
}

abbrev step : ℕ → ℕ → AgentStep
step n t = record {
  id = 101 + n;
  run_id = 101;
  index = n;
  type = if n == 1 then planning else model_call;
  metadata = end;
  created_at = t;
}

abbrev begun_run : AgentRun
begun_run = record {
  id = 101;
  user_id = 2;
  conversation_id = 3;
  provider = "stub";
  model = "m";
  limits = default_limits;
  status = running;
  steps = step 1 3 ∷ step 2 4 ∷ [];
  started_at = some 2;
  finished_at = none;
  failure_reason = none;
  final_response = none;
  usage_metadata = end;
}

start_turn-IsAuthorized_example :
    IsAuthorized ask "what"
      (enter claimed_world)
      (start_turn ask "what" claimed_world).1
      asked
      begun_run
unfolding start_turn transaction exit commit start_body resolve_current_actor
    Users.get_by_telegram_identity enter Users.to_domain load_roles load_role_rows
    make_telegram_identity ensure_active owned_conversation Conversations.get
    Conversations.to_domain validate_message_window Conversations.load_messages
    Conversations.messages_to_domain Conversations.message_page Conversations.newest_first
    Conversations.insert_newest_first Conversations.message_to_domain make_message is_empty strip
    is_space append_user_message Entity.append_message Conversations.append_message message_accepted
    started_run uuid4 utc_now new_run start record_step AgentRuns.add AgentRuns.insert_run
    AgentRuns.row_of run_accepted run_checked AgentRuns.append_steps AgentRuns.append_step
    step_accepted Entity.ensure_active tool_call_count count_tool_calls ensure_step_budget
start_turn-IsAuthorized_example =
    start_turn-IsAuthorized ask "what" claimed_world (start_turn ask "what" claimed_world).1 asked
      begun_run refl

add-get_example :
    AgentRuns.get 101 (AgentRuns.add begun_run claimed_world).1
    ≡ (ok (some begun_run), (AgentRuns.add begun_run claimed_world).1)
unfolding AgentRuns.add AgentRuns.insert_run run_accepted AgentRuns.row_of AgentRuns.append_steps
    AgentRuns.append_step step_accepted
add-get_example =
    add-get begun_run claimed_world (AgentRuns.add begun_run claimed_world).1
      (refl, refl, (refl, refl, tt)) refl refl

start-IsOwned_example : IsOwned (Idempotency.start "agent_run" "new" 300 claimed_world)
start-IsOwned_example =
    start-IsOwned "agent_run" "new" 300 claimed_world one_claim (inl (refl, refl))
