-- ===== src/Application/AgentTurn/Repetition.antt =====
-- application/agent/use_cases.py: what a turn has stored is what the repeated request gets.
use nexabot.Prelude.{◌+◌, ◌≡◌, refl, ◌∙◌, String, none, some}
use nexabot.Domain.Agent.{AgentRun}
use nexabot.Domain.Conversations.{Message}
use nexabot.Ports.Repositories.{completed}
use nexabot.Database.World.{World}
use nexabot.Database.UnitOfWork.{enter, transaction}
use nexabot.Database.Idempotency.Statements.{get_row}
use nexabot.Database.Idempotency.Claims.{IsKeyed, settled_row}
use nexabot.Application.AgentTurn.Command.{
  Claim, RunAgentTurnCommand, AgentTurnResult, validate_input,
}
use nexabot.Application.AgentTurn.Stored.{result_to_stored}
use nexabot.Application.AgentTurn.Finish.{persist_body}
use nexabot.Application.AgentTurn.Execute.{execute}
use nexabot.Application.AgentTurn.Replay.{execute-completed}
use nexabot.Application.AgentTurn.Answered.{persist-Answers}
use nexabot.Exec.{ok}

-- A turn has stored its result and settled its claim in one transaction, on a table of claims that
-- respects its unique constraints. A valid command with the key of that claim comes next, other
-- workers have left the row of the key alone, and the commit succeeds. Then the command returns
-- that result, and beside what other workers have committed nothing has changed: no second answer
-- is stored, and nothing is sent.
pub stored_result_repeats :
    (prompt : String) (command : RunAgentTurnCommand) (text : String) (message : Message)
    (run : AgentRun) (claim : Claim) (result : AgentTurnResult) (w w' : World)
    → IsKeyed (enter w).db.idempotency_records
    → transaction (persist_body message run (some claim) result) w ≡ (ok tt, w')
    → validate_input command ≡ ok text
    → command.idempotency_key ≡ some claim.key
    → get_row "agent_run" claim.key (enter w').db.idempotency_records
      ≡ get_row "agent_run" claim.key w'.db.idempotency_records
    → w'.host.commit_fault (w'.begun + 1) ≡ none
    → execute prompt command w' ≡ (ok result, enter w')
stored_result_repeats prompt command text message run claim result w w' keyed stored valid key alone
      commits =
    let (_, (r, _, _, _, settled)) = persist-Answers message run claim result w w' keyed stored in
    execute-completed prompt command text claim.key w'
      (settled_row completed (result_to_stored result) r) valid key (alone ∙ settled) commits result
      refl refl
