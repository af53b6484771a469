-- ===== src/Tests/Turns.antt =====
-- Turns that are repeated, answered or refused.
use nexabot.Prelude.{◌≡◌, refl, ◌⊎◌, [], ◌∷◌, strip, is_empty, is_space, len}
use nexabot.Prelude.Int.{pos}
use nexabot.Domain.Json.{end}
use nexabot.Domain.Errors.{NexaBotError, domain_error, conflict_error, validation}
use nexabot.Domain.Context.{estimate_tokens, select_within_token_budget}
use nexabot.Domain.Conversations.{recent_messages, make_message}
use nexabot.Domain.Conversations.History.{IsView}
use nexabot.Ports.Gateway.{LlmRequest}
use nexabot.Ports.Repositories.{failed, started, validate_message_window}
use nexabot.Database.World.{World}
use nexabot.Database.UnitOfWork.{enter}
use nexabot.Database.Idempotency.Statements.{get_row, is_expired}
use nexabot.Database.Conversations
use nexabot.Database.Conversations.Loading.{get-IsView, stored_history}
use nexabot.Application.AgentTurn.Command.{validate_input}
use nexabot.Application.AgentTurn.Request.{build_request, request_with, request_of}
use nexabot.Application.AgentTurn.Execute.{execute}
use nexabot.Application.AgentTurn.Validation.{IsAcceptable, validate_input-cases}
use nexabot.Application.AgentTurn.Prompt.{IsPrompt, build_request-IsPrompt}
use nexabot.Application.AgentTurn.Replay.{execute-failed, execute-unexpired}
use nexabot.Application.AgentTurn.AtMostOnce.{SentOnce, execute-SentOnce}
use nexabot.Tests.Fixture.{world_with, claim_row, answer_hi, ask, loaded_conversation, hello_row}
use nexabot.Exec.{ok, err}

abbrev after_failed : World
after_failed = world_with answer_hi (claim_row failed end ∷ [])

abbrev during : World
during = world_with answer_hi (claim_row started end ∷ [])

execute-failed_example : execute "p" ask after_failed ≡ (
  err (
      domain_error (
        conflict_error "A previous attempt for this request failed and was not retried."
          "agent_run_idempotency_failed" [])),
  enter after_failed,
)
unfolding validate_input get_row enter estimate_tokens strip is_empty is_space len
execute-failed_example =
    execute-failed "p" ask "what" "k" after_failed (claim_row failed end) refl refl refl refl refl

execute-unexpired_example : execute "p" ask during ≡ (
  err (
      domain_error
        (conflict_error "This request is already being processed." "agent_run_in_progress" [])),
  record (enter during) { reads = 1 },
)
unfolding validate_input get_row enter estimate_tokens strip is_empty is_space len is_expired
execute-unexpired_example =
    execute-unexpired "p" ask "what" "k" during (claim_row started end) refl refl refl refl refl
      refl

execute-SentOnce_example : SentOnce [] (execute "p" ask (world_with answer_hi [])).1.sent
execute-SentOnce_example = execute-SentOnce "p" ask (world_with answer_hi [])

validate_input-cases_example :
    ((validate_input ask ≡ ok (strip "what")) × IsAcceptable (strip "what") ask)
    ⊎ ((failure : NexaBotError) × (validate_input ask ≡ err (domain_error failure))
        × (failure.category ≡ validation)
        × (IsAcceptable (strip "what") ask → ⊥))
validate_input-cases_example = validate_input-cases ask

abbrev request : LlmRequest
request = request_with "p" ask loaded_conversation.messages

loaded-IsView : IsView loaded_conversation loaded_conversation.messages
loaded-IsView = record { older = []; split = refl; knows = refl }

build_request-IsPrompt_example : IsPrompt "p" ask loaded_conversation.messages request
unfolding build_request recent_messages estimate_tokens len select_within_token_budget request_of
build_request-IsPrompt_example =
    build_request-IsPrompt "p" ask loaded_conversation loaded_conversation.messages request
      loaded-IsView refl

get-IsView_example :
    IsView loaded_conversation (stored_history 3 (hello_row ∷ []))
    × (loaded_conversation.id ≡ 3)
    × (world_with answer_hi [] ≡ world_with answer_hi [])
unfolding Conversations.get Conversations.to_domain validate_message_window
    Conversations.load_messages Conversations.messages_to_domain Conversations.message_page
    Conversations.newest_first Conversations.insert_newest_first Conversations.message_to_domain
    make_message is_empty strip is_space
get-IsView_example = get-IsView 3 (pos 20) (world_with answer_hi []) loaded_conversation refl
