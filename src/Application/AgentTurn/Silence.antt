-- ===== src/Application/AgentTurn/Silence.antt =====
-- application/agent/use_cases.py: the phases of a turn that send nothing to the model provider.
use nexabot.Prelude.{ℕ, refl, String, Option, none, some, ◌+◌, arith}
use nexabot.Prelude.Int.{ℤ}
use nexabot.Domain.Errors.{Exception, cancelled}
use nexabot.Domain.Agent.{AgentRun}
use nexabot.Domain.Agent as Agent
use nexabot.Domain.Conversations.{Conversation, MessageRole}
use nexabot.Domain.Conversations as Entity
use nexabot.Domain.Json.{end}
use nexabot.Database.World.{utc_now, uuid4}
use nexabot.Database.UnitOfWork.{transaction}
use nexabot.Database.Idempotency
use nexabot.Database.Conversations
use nexabot.Database.AgentRuns
use nexabot.Database.Users
use nexabot.Database.Silence.{
  IsSilent, >>=-IsSilent, transaction-IsSilent, start-IsSilent, settle-IsSilent,
  get_conversation-IsSilent, append_message-IsSilent, add_run-IsSilent, get_run-IsSilent,
  save_run-IsSilent,
}
use nexabot.Application.Identity.{resolve_current_actor}
use nexabot.Application.AgentTurn.Command.{Claim, RunAgentTurnCommand}
use nexabot.Application.AgentTurn.Phases.{
  check_idempotency, started_run, append_user_message, owned_conversation, start_body, start_turn,
}
use nexabot.Application.AgentTurn.Settlement.{
  swallow, fail_and_save, settle_run_body, settle_failed_run, settle_failed_claim,
  settle_claim_if_any, fail_turn, normalize_failure, or_run,
}
use nexabot.Application.AgentTurn.Execute.{handle_failure}
use nexabot.Exec.{lift}

pub check-IsSilent : (key : String) → IsSilent (check_idempotency key)
unfolding check_idempotency
check-IsSilent key =
    >>=-IsSilent (transaction (Idempotency.start "agent_run" key 300)) _
      (transaction-IsSilent (Idempotency.start "agent_run" key 300)
        (start-IsSilent "agent_run" key 300))
      (λ found u. refl)

resolve-IsSilent : (telegram_user_id : ℤ) → IsSilent (resolve_current_actor telegram_user_id)
unfolding resolve_current_actor Users.get_by_telegram_identity
resolve-IsSilent telegram_user_id w = ground arith

owned-IsSilent :
    (actor_id : ℕ) (command : RunAgentTurnCommand) → IsSilent (owned_conversation actor_id command)
unfolding owned_conversation
owned-IsSilent actor_id command =
    >>=-IsSilent (Conversations.get command.conversation_id command.context_window) _
      (get_conversation-IsSilent command.conversation_id command.context_window)
      (λ found u. ground arith)

append_user-IsSilent : (text : String) (c : Conversation) → IsSilent (append_user_message text c)
unfolding append_user_message uuid4 utc_now
append_user-IsSilent text c w =
    >>=-IsSilent
      (lift (
        Entity.append_message (w.host.uuid w.drawn) (w.host.clock w.reads)
          (w.host.clock (w.reads + 1)) MessageRole.user text end c))
      _ (λ u. refl)
      (λ appended.
        >>=-IsSilent (Conversations.append_message appended.0) _
          (append_message-IsSilent appended.0) (λ _ u. refl))
      (record w { reads = w.reads + 1 + 1; drawn = w.drawn + 1 })

started_run-IsSilent :
    (user_id conversation_id : ℕ) (command : RunAgentTurnCommand)
    → IsSilent (started_run user_id conversation_id command)
unfolding started_run uuid4 utc_now
started_run-IsSilent user_id conversation_id command w = ground arith

pub start_turn-IsSilent :
    (command : RunAgentTurnCommand) (text : String) → IsSilent (start_turn command text)
unfolding start_turn start_body
start_turn-IsSilent command text = transaction-IsSilent (start_body command text) (
    >>=-IsSilent (resolve_current_actor command.telegram_user_id) _
      (resolve-IsSilent command.telegram_user_id)
      λ actor.
        >>=-IsSilent (owned_conversation actor.id command) _ (owned-IsSilent actor.id command)
          λ conversation.
            >>=-IsSilent (append_user_message text conversation) _
              (append_user-IsSilent text conversation)
              λ appended.
                >>=-IsSilent (started_run actor.id conversation.id command) _
                  (started_run-IsSilent actor.id conversation.id command)
                  λ run. >>=-IsSilent (AgentRuns.add run) _ (add_run-IsSilent run) (λ _ u. refl))

-- The settlement of a failure sends nothing.
fail_and_save-IsSilent :
    (target : AgentRun) (reason : String) → IsSilent (fail_and_save target reason)
unfolding fail_and_save uuid4 utc_now
fail_and_save-IsSilent target reason w =
    >>=-IsSilent
      (lift (
        Agent.fail (w.host.uuid w.drawn) (w.host.clock w.reads) (w.host.clock (w.reads + 1)) reason
          target))
      _ (λ u. refl) (λ ended. save_run-IsSilent ended)
      (record w { reads = w.reads + 1 + 1; drawn = w.drawn + 1 })

settle_run-IsSilent : (run : AgentRun) (reason : String) → IsSilent (settle_run_body run reason)
unfolding settle_run_body
settle_run-IsSilent run reason =
    >>=-IsSilent (AgentRuns.get run.id) _ (get_run-IsSilent run.id)
      (λ persisted w. ground (arith, fail_and_save-IsSilent (or_run persisted run) reason w))

settle_claim-IsSilent :
    (claim : Option Claim) (reason : String) → IsSilent (settle_claim_if_any claim reason)
unfolding settle_failed_claim swallow Idempotency.fail
settle_claim-IsSilent none reason w = refl
settle_claim-IsSilent (some claim) reason w =
    transaction-IsSilent (Idempotency.fail "agent_run" claim.key reason claim.token)
      (settle-IsSilent "agent_run" claim.key claim.token _ _) w

fail_turn-IsSilent :
    (run : AgentRun) (claim : Option Claim) (reason : String)
    → IsSilent (fail_turn run claim reason)
unfolding fail_turn settle_failed_run swallow
fail_turn-IsSilent run claim reason =
    >>=-IsSilent (settle_failed_run run reason) _
      (λ w. transaction-IsSilent (settle_run_body run reason) (settle_run-IsSilent run reason) w)
      (λ _. settle_claim-IsSilent claim reason)

pub handle_failure-IsSilent :
    (run : AgentRun) (claim : Option Claim) (exc : Exception)
    → IsSilent (handle_failure run claim exc)
unfolding handle_failure
handle_failure-IsSilent run claim cancelled w = refl
handle_failure-IsSilent run claim exc w =
    >>=-IsSilent (fail_turn run claim (normalize_failure exc).safe_message) _
      (fail_turn-IsSilent run claim (normalize_failure exc).safe_message) (λ _ u. refl) w
