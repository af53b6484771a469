-- ===== src/Application/AgentTurn/Command.antt =====
-- application/agent/use_cases.py: the command, its validation, and the result of a turn.
use nexabot.Prelude.{ℕ, String, ◌||◌, Option, [], ◌∷◌, len, is_empty, strip, ltb, if◌then◌else◌}
use nexabot.Prelude.Int.{ℤ, pos, not_positive, exceeds}
use nexabot.Domain.Errors.{Detail, validation_error}
use nexabot.Domain.Json.{Mapping}
use nexabot.Domain.Agent.{AgentLimits, AgentRunStatus}
use nexabot.Domain.Context.{estimate_tokens}
use nexabot.Ports.Repositories.{max_message_window}
use nexabot.Exec.{Result, ok, fails}

abbrev pub idempotency_namespace : String
idempotency_namespace = "agent_run"

abbrev pub max_input_characters : ℕ
max_input_characters = 32000

abbrev pub default_system_prompt : String
default_system_prompt = "You are NexaBot, a helpful and safe assistant."

pub record Claim : Type 0 where
  pub key : String
  pub token : ℕ

pub record RunAgentTurnCommand : Type 0 where
  pub telegram_user_id : ℤ
  pub conversation_id : ℕ
  pub text : String
  pub provider : String
  pub model : String
  pub limits : AgentLimits
  pub idempotency_key : Option String
  pub context_window : ℤ

pub record AgentTurnResult : Type 0 where
  pub agent_run_id : ℕ
  pub conversation_id : ℕ
  pub assistant_message_id : ℕ
  pub response : String
  pub status : AgentRunStatus
  pub usage_metadata : Mapping

-- The checks of `_validate_input` on the stripped text.
unfoldable pub check_text : String → RunAgentTurnCommand → Result String
check_text text command =
    if is_empty text
    then fails (validation_error "Agent turn input is required." "agent_turn_input_required" [])
    else if ltb max_input_characters (len text)
    then fails (
        validation_error "Agent turn input is too long." "agent_turn_input_too_long"
          (("maximum_characters", Detail.int (pos max_input_characters)) ∷ []))
    else if not_positive command.context_window || exceeds command.context_window max_message_window
    then fails (
        validation_error "Context window is out of range." "agent_context_window_invalid"
          (("maximum", Detail.int (pos max_message_window)) ∷ []))
    else if ltb command.limits.max_context_tokens (estimate_tokens text)
    then fails (
        validation_error "Agent turn input exceeds the context token budget."
          "agent_turn_input_exceeds_context_budget"
          (("max_context_tokens", Detail.int (pos command.limits.max_context_tokens)) ∷ []))
    else ok text

-- `_validate_input`
unfoldable pub validate_input : RunAgentTurnCommand → Result String
unfolding check_text
validate_input command = check_text (strip command.text) command
