-- ===== src/Application/AgentTurn/Replay.antt =====
-- application/agent/use_cases.py: a key that was used before does no work again.
use nexabot.Prelude.{◌+◌, ◌≡◌, refl, String, false, none, some, []}
use nexabot.Domain.Errors.{domain_error, conflict_error}
use nexabot.Ports.Repositories.{started, completed, failed, default_claim_ttl_seconds}
use nexabot.Database.Tables.{IdempotencyRow}
use nexabot.Database.World.{World, utc_now}
use nexabot.Database.UnitOfWork.{enter, commit, exit, transaction}
use nexabot.Database.Idempotency
use nexabot.Database.Idempotency.Statements.{get_row, is_expired}
use nexabot.Application.AgentTurn.Command.{RunAgentTurnCommand, AgentTurnResult, validate_input}
use nexabot.Application.AgentTurn.Stored.{result_to_stored, result_from_stored-result_to_stored}
use nexabot.Application.AgentTurn.Phases.{judge, check_idempotency}
use nexabot.Application.AgentTurn.Execute.{execute}
use nexabot.Exec.{ok, err}

module _ (prompt : String) (command : RunAgentTurnCommand) (text key : String) (w : World)
    (r : IdempotencyRow) (valid : validate_input command ≡ ok text)
    (keyed : command.idempotency_key ≡ some key)
    (found : get_row "agent_run" key (enter w).db.idempotency_records ≡ some r)
    (commits : w.host.commit_fault (w.begun + 1) ≡ none) where
  -- A repeated request whose first attempt completed gets the stored result again: nothing is
  -- written, no UUID is drawn and no request is sent.
  pub execute-completed :
      (result : AgentTurnResult)
      → r.state ≡ completed
      → r.result ≡ result_to_stored result
      → execute prompt command w ≡ (ok result, enter w)
  unfolding execute check_idempotency judge transaction exit commit enter Idempotency.start
      Idempotency.claim_existing get_row
  execute-completed result done stored =
      rw (valid, keyed, found, done, commits, stored, result_from_stored-result_to_stored result)
        refl

  -- A repeated request whose first attempt failed is refused with a conflict: nothing is written
  -- and no request is sent.
  pub execute-failed :
      r.state ≡ failed
      → execute prompt command w ≡ (
        err (
            domain_error (
              conflict_error "A previous attempt for this request failed and was not retried."
                "agent_run_idempotency_failed" [])),
        enter w,
      )
  unfolding execute check_idempotency judge transaction exit commit enter Idempotency.start
      Idempotency.claim_existing get_row
  execute-failed done = rw (valid, keyed, found, done, commits) refl

  -- A repeated request, with a valid command and a commit that succeeds, whose first attempt still
  -- runs within its time to live is refused with a conflict: but for one reading of the clock the
  -- world is as it was found.
  pub execute-unexpired :
      r.state ≡ started
      → is_expired default_claim_ttl_seconds (w.host.clock w.reads) r ≡ false
      → execute prompt command w ≡ (
        err (
            domain_error (
              conflict_error "This request is already being processed." "agent_run_in_progress"
                [])),
        record (enter w) { reads = w.reads + 1 },
      )
  unfolding execute check_idempotency judge transaction exit commit enter utc_now Idempotency.start
      Idempotency.claim_existing Idempotency.reclaim_if_expired get_row is_expired
  execute-unexpired running fresh = rw (valid, keyed, found, running, fresh, commits) refl
