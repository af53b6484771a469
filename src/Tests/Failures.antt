-- ===== src/Tests/Failures.antt =====
-- Turns that fail, are cancelled or are not even started.
use nexabot.Prelude.{◌≡◌, refl, some, [], ◌∷◌, len}
use nexabot.Domain.Json.{Json, end, entry}
use nexabot.Domain.Errors.{cancelled}
use nexabot.Domain.Agent.{AgentRun, AgentStep, error, next_step, make_limits}
use nexabot.Domain.Conversations.{recent_messages}
use nexabot.Domain.Context.{estimate_tokens, select_within_token_budget}
use nexabot.Ports.Gateway.{raises}
use nexabot.Ports.Repositories.{started}
use nexabot.Database.World.{World}
use nexabot.Database.UnitOfWork.{enter, transaction}
use nexabot.Database.UnitOfWork.Atomicity.{Ended, transaction-Ended}
use nexabot.Database.Tables.{run_checked}
use nexabot.Database.AgentRuns
use nexabot.Database.AgentRuns.{saved, step_row}
use nexabot.Database.AgentRuns.Saving.{save-appends}
use nexabot.Application.AgentTurn.Command.{Claim}
use nexabot.Application.AgentTurn.Request.{build_request, request_with, request_of}
use nexabot.Application.AgentTurn.Phases.{remaining}
use nexabot.Application.AgentTurn.Settlement.{settle_run_body, settle_failed_run}
use nexabot.Application.AgentTurn.Execute.{run_started}
use nexabot.Application.AgentTurn.Failure.{IsReported, run_started-IsReported}
use nexabot.Application.AgentTurn.Unsettled.{run_started-cancelled}
use nexabot.Application.AgentTurn.Settles.{failed_run, settle_failed_run-settles}
use nexabot.Tests.Fixture.{
  world_with, claim_row, answer_hi, ask, loaded_conversation, stored_run, running_row,
}
use nexabot.Exec.{ok, err}

abbrev claim : Claim
claim = record { key = "k"; token = 8 }

abbrev quiet_world : World
quiet_world = world_with answer_hi (claim_row started end ∷ [])

abbrev cancelling : World
cancelling = world_with (raises 1 cancelled) (claim_row started end ∷ [])

transaction-Ended_example :
    Ended
      (settle_run_body stored_run "down")
      quiet_world
      (transaction (settle_run_body stored_run "down") quiet_world)
transaction-Ended_example = transaction-Ended (settle_run_body stored_run "down") quiet_world

run_started-IsReported_example :
    IsReported (run_started "p" ask (some claim) loaded_conversation stored_run quiet_world).0
run_started-IsReported_example =
    run_started-IsReported "p" ask (some claim) loaded_conversation stored_run quiet_world

run_started-cancelled_example :
    ((run_started "p" ask (some claim) loaded_conversation stored_run cancelling).0 ≡ err cancelled)
    × ((run_started "p" ask (some claim) loaded_conversation stored_run cancelling).1.db
        ≡ cancelling.db)
unfolding build_request recent_messages estimate_tokens len select_within_token_budget request_of
    remaining
run_started-cancelled_example =
    run_started-cancelled "p" ask (some claim) loaded_conversation stored_run cancelling
      (request_with "p" ask loaded_conversation.messages) 1 refl refl refl refl

abbrev error_step : AgentStep
error_step = next_step 100 0 error (entry "reason" (Json.str "down") end) stored_run

abbrev ended : AgentRun
ended = failed_run 100 0 1 "down" stored_run

settle_failed_run-settles_example : settle_failed_run stored_run "down" quiet_world ≡ (
  ok tt,
  record (enter quiet_world) {
    reads = 2;
    drawn = 1;
    db = record quiet_world.db {
      agent_runs = saved ended running_row ∷ [];
      agent_steps = step_row error_step ∷ [];
    };
  },
)
unfolding enter AgentRuns.to_domain AgentRuns.load_limits make_limits AgentRuns.load_steps
    AgentRuns.by_index AgentRuns.highest_index
settle_failed_run-settles_example =
    settle_failed_run-settles stored_run "down" quiet_world running_row stored_run refl refl refl tt
      refl refl refl

save-appends_example : AgentRuns.save ended quiet_world ≡ (
  ok tt,
  record quiet_world {
    db = record quiet_world.db {
      agent_runs = saved ended running_row ∷ [];
      agent_steps = step_row error_step ∷ [];
    };
  },
)
unfolding AgentRuns.highest_index run_checked
save-appends_example =
    save-appends ended running_row [] error_step quiet_world refl refl refl (refl, refl, tt) refl
      refl
