-- ===== src/Tests/Blocked.antt =====
-- A turn on a conversation that does not exist, asked for twice.
use nexabot.Prelude.{◌≡◌, ◌+◌, refl, [], len, is_empty, is_space, strip}
use nexabot.Domain.Json.{end}
use nexabot.Domain.Errors.{Exception, domain_error, not_found_error, conflict_error}
use nexabot.Domain.Context.{estimate_tokens}
use nexabot.Domain.Identity.{make_telegram_identity, ensure_active}
use nexabot.Ports.Repositories.{started}
use nexabot.Database.Tables.{IdempotencyRow}
use nexabot.Database.World.{World, uuid4, utc_now}
use nexabot.Database.UnitOfWork.{enter, exit, commit, transaction, translate_database_errors}
use nexabot.Database.Users
use nexabot.Database.Users.Roles.{load_roles, load_role_rows}
use nexabot.Database.Conversations
use nexabot.Database.Idempotency
use nexabot.Database.Idempotency.Statements.{get_row, insert_claim, is_expired}
use nexabot.Application.Identity.{resolve_current_actor}
use nexabot.Application.AgentTurn.Command.{Claim, RunAgentTurnCommand, validate_input, check_text}
use nexabot.Application.AgentTurn.Phases.{
  judge, check_idempotency, start_turn, start_body, owned_conversation,
}
use nexabot.Application.AgentTurn.Execute.{execute}
use nexabot.Application.AgentTurn.Unsettled.{failed_start_blocks}
use nexabot.Tests.Fixture.{world_with, answer_hi, ask, claim_row}
use nexabot.Exec.{err}

abbrev astray : RunAgentTurnCommand
astray = record ask { conversation_id = 33 }

abbrev asking : World
asking = world_with answer_hi []

abbrev first_claim : Claim
first_claim = record { key = "k"; token = 100 }

abbrev starting : World
starting = (check_idempotency "k" asking).1

abbrev unknown : Exception
unknown = domain_error (not_found_error "Conversation not found." "conversation_not_found" [])

abbrev standing : IdempotencyRow
standing = record (claim_row started end) { id = 101; claim_token = 100 }

failed_start_blocks_example :
    (execute "p" astray asking ≡ (err unknown, enter starting))
    × (execute "p" astray (enter starting) ≡ (
      err (
          domain_error
            (conflict_error "This request is already being processed." "agent_run_in_progress" [])),
      record (enter (enter starting)) { reads = (enter starting).reads + 1 },
    ))
unfolding start_turn transaction exit commit start_body resolve_current_actor
    Users.get_by_telegram_identity enter Users.to_domain load_roles load_role_rows
    make_telegram_identity ensure_active owned_conversation Conversations.get
    translate_database_errors check_idempotency judge Idempotency.start Idempotency.create_claim
    Idempotency.after_insert get_row insert_claim is_expired validate_input check_text
    estimate_tokens strip is_empty is_space len uuid4 utc_now
failed_start_blocks_example =
    failed_start_blocks "p" astray "what" "k" first_claim asking starting (enter starting) unknown
      standing refl refl refl refl refl refl refl refl refl
