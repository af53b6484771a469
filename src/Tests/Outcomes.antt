-- ===== src/Tests/Outcomes.antt =====
-- A turn that is answered, from the call of the provider to the stored result.
use nexabot.Prelude.{refl, some, is_empty, is_space, strip, len, [], ◌∷◌}
use nexabot.Domain.Json.{Json, end, entry}
use nexabot.Domain.Agent.{
  succeeded, record_step, finish, ensure_step_budget, tool_call_count, count_tool_calls,
}
use nexabot.Domain.Conversations.{recent_messages, make_message, ensure_active}
use nexabot.Domain.Conversations as Entity
use nexabot.Domain.Context.{estimate_tokens, select_within_token_budget}
use nexabot.Ports.Repositories.{started}
use nexabot.Database.Tables.{message_accepted, run_checked, step_accepted}
use nexabot.Database.World.{World, utc_now, uuid4}
use nexabot.Database.UnitOfWork.{enter, exit, commit, transaction}
use nexabot.Database.Idempotency
use nexabot.Database.Conversations
use nexabot.Database.AgentRuns
use nexabot.Application.AgentTurn.Command.{Claim, AgentTurnResult}
use nexabot.Application.AgentTurn.Request.{build_request, request_of, validate_response}
use nexabot.Application.AgentTurn.Phases.{call_model, send, within, remaining}
use nexabot.Application.AgentTurn.Finish.{
  append_assistant_message, append_message, finish_run, persist_body, finish_turn,
}
use nexabot.Application.AgentTurn.Execute.{attempt, run_started}
use nexabot.Application.AgentTurn.Outcome.{IsStored, run_started-IsStored}
use nexabot.Tests.Fixture.{world_with, claim_row, answer_hi, ask, stored_run, loaded_conversation}

abbrev own_claim : Claim
own_claim = record { key = "k"; token = 8 }

abbrev claimed_world : World
claimed_world = world_with answer_hi (claim_row started end ∷ [])

abbrev answer : AgentTurnResult
answer = record {
  agent_run_id = 1;
  conversation_id = 3;
  assistant_message_id = 100;
  response = "hi";
  status = succeeded;
  usage_metadata =
      entry "input_tokens" (Json.num 1)
        (entry "output_tokens" (Json.num 1) (entry "total_tokens" (Json.num 2) end));
}

run_started-IsStored_example :
    IsStored
      (some own_claim)
      answer
      (run_started "p" ask (some own_claim) loaded_conversation stored_run claimed_world).1
unfolding run_started attempt build_request request_of recent_messages select_within_token_budget
    estimate_tokens len call_model send within remaining utc_now uuid4 validate_response strip
    is_empty is_space finish_turn append_assistant_message append_message Entity.append_message
    ensure_active make_message finish_run record_step ensure_step_budget finish tool_call_count
    count_tool_calls enter exit commit transaction persist_body Conversations.append_message
    message_accepted AgentRuns.save AgentRuns.update_run run_checked AgentRuns.append_steps
    AgentRuns.append_step AgentRuns.new_steps AgentRuns.highest_index step_accepted
    Idempotency.complete Idempotency.settle Idempotency.settle_row
run_started-IsStored_example =
    run_started-IsStored "p" ask (some own_claim) loaded_conversation stored_run claimed_world
      (run_started "p" ask (some own_claim) loaded_conversation stored_run claimed_world).1 answer
      refl
