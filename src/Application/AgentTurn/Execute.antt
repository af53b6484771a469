-- ===== src/Application/AgentTurn/Execute.antt =====
-- application/agent/use_cases.py: `RunAgentTurn.execute`.
use nexabot.Prelude.{String, Option, none, some}
use nexabot.Domain.Errors.{Exception, cancelled}
use nexabot.Domain.Agent.{AgentRun}
use nexabot.Domain.Conversations.{Conversation}
use nexabot.Database.World.{World}
use nexabot.Application.AgentTurn.Command.{
  Claim, RunAgentTurnCommand, AgentTurnResult, validate_input,
}
use nexabot.Application.AgentTurn.Request.{build_request, validate_response}
use nexabot.Application.AgentTurn.Phases.{
  Checked, cached, claimed, check_idempotency, start_turn, call_model,
}
use nexabot.Application.AgentTurn.Settlement.{normalize_failure, fail_turn}
use nexabot.Application.AgentTurn.Finish.{Attempt, in_world, finish_turn}
use nexabot.Exec.{Exec, Result, ok, err, pure, throw, raise, lift, gets, ◌>>=◌, ◌>>◌}

-- The body of the `try` block.
unfoldable pub attempt : String → RunAgentTurnCommand → Option Claim → Exec Attempt AgentTurnResult
attempt prompt command claim = do
  conversation ← gets (λ a. a.conversation)
  request ← lift (build_request prompt command conversation)
  run ← gets (λ a. a.run)
  response ← in_world (call_model run request)
  content ← lift (validate_response response)
  finish_turn response content claim

-- The `except Exception` block; a cancellation passes it by.
unfoldable pub handle_failure : AgentRun → Option Claim → Exception → Exec World AgentTurnResult
handle_failure run claim cancelled = throw cancelled
handle_failure run claim exc = do
  let failure = normalize_failure exc
  fail_turn run claim failure.safe_message
  raise failure

abbrev pub settled :
    Option Claim → Result AgentTurnResult × Attempt → Result AgentTurnResult × World
settled claim (ok result, a) = (ok result, a.world)
settled claim (err exc, a) = handle_failure a.run claim exc a.world

-- The `try` statement.
unfoldable pub run_started :
    String
    → RunAgentTurnCommand
    → Option Claim
    → Conversation
    → AgentRun
    → Exec World AgentTurnResult
run_started prompt command claim conversation run w =
    settled claim
      (attempt prompt command claim (record { world = w; run = run; conversation = conversation }))

-- What follows the idempotency check.
unfoldable pub run_claimed :
    String → RunAgentTurnCommand → String → Option Claim → Exec World AgentTurnResult
run_claimed prompt command text claim = do
  begun ← start_turn command text
  run_started prompt command claim begun.0 begun.1

abbrev pub continue_with :
    String → RunAgentTurnCommand → String → Checked → Exec World AgentTurnResult
continue_with prompt command text (cached result) = pure result
continue_with prompt command text (claimed claim) = run_claimed prompt command text (some claim)

abbrev pub dispatch :
    String → RunAgentTurnCommand → String → Option String → Exec World AgentTurnResult
dispatch prompt command text none = run_claimed prompt command text none
dispatch prompt command text (some key) = do
  checked ← check_idempotency key
  continue_with prompt command text checked

-- `RunAgentTurn.execute`
unfoldable pub execute : String → RunAgentTurnCommand → Exec World AgentTurnResult
execute prompt command = do
  text ← lift (validate_input command)
  dispatch prompt command text command.idempotency_key
