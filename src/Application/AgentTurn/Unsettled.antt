-- ===== src/Application/AgentTurn/Unsettled.antt =====
-- application/agent/use_cases.py: the two ways in which a turn ends without its settlement.
use nexabot.Prelude.{
  ℕ, ◌+◌, ◌≡◌, refl, ap, sym, ◌∙◌, subst, String, true, false, Option, none, some, [], length, ltb,
}
use nexabot.Prelude.Int.{not_positive, to_ℕ}
use nexabot.Domain.Errors.{Exception, cancelled, domain_error, conflict_error}
use nexabot.Domain.Agent.{AgentRun}
use nexabot.Domain.Conversations.{Conversation}
use nexabot.Ports.Gateway.{LlmRequest, raises}
use nexabot.Database.World.{World, utc_now}
use nexabot.Database.Tables.{IdempotencyRow}
use nexabot.Database.Idempotency.Statements.{get_row, is_expired}
use nexabot.Ports.Repositories.{started, default_claim_ttl_seconds}
use nexabot.Database.UnitOfWork.{enter}
use nexabot.Database.UnitOfWork.Atomicity.{Ended, transaction-Ended}
use nexabot.Application.AgentTurn.Command.{Claim, RunAgentTurnCommand, validate_input}
use nexabot.Application.AgentTurn.Request.{build_request}
use nexabot.Application.AgentTurn.Phases.{
  claimed, check_idempotency, start_body, start_turn, within, send, call_model, remaining,
}
use nexabot.Application.AgentTurn.Execute.{
  attempt, handle_failure, run_started, run_claimed, execute,
}
use nexabot.Application.AgentTurn.Granting.{Grants, dispatches}
use nexabot.Application.AgentTurn.Replay.{execute-unexpired}
use nexabot.Exec.{Result, ok, err, continue}

-- When the task of a turn is cancelled during the call of the provider, the cancellation leaves
-- the turn with the database as the start of the turn left it: neither the run nor the claim is
-- settled.
pub run_started-cancelled :
    (prompt : String) (command : RunAgentTurnCommand) (claim : Option Claim)
    (conversation : Conversation) (run : AgentRun) (w : World) (request : LlmRequest) (after : ℕ)
    → build_request prompt command conversation ≡ ok request
    → not_positive (remaining (w.host.clock w.reads) run) ≡ false
    → w.host.complete (length w.sent) request ≡ raises after cancelled
    → ltb after (to_ℕ (remaining (w.host.clock w.reads) run)) ≡ true
    → ((run_started prompt command claim conversation run w).0 ≡ err cancelled)
      × ((run_started prompt command claim conversation run w).1.db ≡ w.db)
unfolding run_started attempt handle_failure call_model send within utc_now
run_started-cancelled prompt command claim conversation run w request after built early raised
      soon =
    (rw (built, early, raised, soon) refl, rw (built, early, raised, soon) refl)

failed_start :
    (prompt : String) (command : RunAgentTurnCommand) (text : String) (claim : Option Claim)
    (w w' : World) (e : Exception)
    → start_turn command text w ≡ (err e, w')
    → run_claimed prompt command text claim w ≡ (err e, w')
unfolding run_claimed
failed_start prompt command text claim w w' e h =
    ap
      (λ (p : Result (Conversation × AgentRun) × World).
        continue p.0 (λ begun. run_started prompt command claim begun.0 begun.1) p.1)
      h

module _ (prompt : String) (command : RunAgentTurnCommand) (text key : String) (claim : Claim)
    (asking starting failed : World) (e : Exception) (r : IdempotencyRow)
    (valid : validate_input command ≡ ok text) (keyed : command.idempotency_key ≡ some key)
    (granted : check_idempotency key asking ≡ (ok (claimed claim), starting))
    (failing : start_turn command text starting ≡ (err e, failed))
    (standing : get_row "agent_run" key (enter starting).db.idempotency_records ≡ some r)
    (opened : r.state ≡ started)
    (alone : get_row "agent_run" key (enter failed).db.idempotency_records
      ≡ get_row "agent_run" key failed.db.idempotency_records)
    (soon : is_expired default_claim_ttl_seconds (failed.host.clock failed.reads) r ≡ false)
    (commits : failed.host.commit_fault (failed.begun + 1) ≡ none) where
  kept : failed.db ≡ (enter starting).db
  unfolding start_turn
  kept =
      (subst (Ended (start_body command text) starting) (failing)
        (transaction-Ended (start_body command text) starting)).0

  -- A valid command has claimed its key, and the transaction that starts the turn raises, with the
  -- claim still standing when it began. Then the command raises the same, and leaves the claim as it
  -- was: if no other worker touches the row of the key, the same command, sent again before the claim
  -- has expired and with a commit that succeeds, is refused as already being processed, although no
  -- turn is running.
  pub failed_start_blocks :
      (execute prompt command asking ≡ (err e, failed))
      × (execute prompt command failed ≡ (
        err (
            domain_error (
              conflict_error "This request is already being processed." "agent_run_in_progress"
                [])),
        record (enter failed) { reads = failed.reads + 1 },
      ))
  unfolding execute
  failed_start_blocks = (
    rw valid (
        dispatches prompt command text command.idempotency_key (some claim) asking starting
          (subst (λ k. Grants k (some claim) asking starting) (sym keyed) (claim, refl, granted))
        ∙ failed_start prompt command text (some claim) starting failed e failing),
    execute-unexpired prompt command text key failed r valid keyed
        (alone ∙ ap (λ db. get_row "agent_run" key db.idempotency_records) kept ∙ standing) commits
        opened soon,
  )
