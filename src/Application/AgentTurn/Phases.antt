-- ===== src/Application/AgentTurn/Phases.antt =====
-- application/agent/use_cases.py: the idempotency check, the transaction that starts a turn, and
-- the call of the provider under the deadline of the run.
use nexabot.Prelude.{
  ℕ, ◌+◌, ◌*◌, String, Bool, true, not, Option, none, some, [], ◌∷◌, ◌++◌, length, ltb, ◌==◌,
  if◌then◌else◌,
}
use nexabot.Prelude.Int.{ℤ, pos, sub_ℕ, not_positive, to_ℕ}
use nexabot.Domain.Errors.{
  Exception, domain_error, timeout_error, conflict_error, not_found_error, authorization_error,
  external_service_error,
}
use nexabot.Domain.Json.{end}
use nexabot.Domain.Agent.{AgentRun, planning, model_call, new_run, start, record_step}
use nexabot.Domain.Conversations.{Conversation, Message, MessageRole}
use nexabot.Domain.Conversations as Entity
use nexabot.Ports.Gateway.{LlmRequest, LlmResponse, Answer, responds, raises, hangs}
use nexabot.Ports.Repositories.{
  completed, failed, started, IdempotencyRecord, default_claim_ttl_seconds,
}
use nexabot.Database.World.{World, utc_now, uuid4}
use nexabot.Database.UnitOfWork.{transaction}
use nexabot.Database.Idempotency
use nexabot.Database.Conversations
use nexabot.Database.AgentRuns
use nexabot.Application.Identity.{resolve_current_actor}
use nexabot.Application.AgentTurn.Command.{
  idempotency_namespace, Claim, RunAgentTurnCommand, AgentTurnResult,
}
use nexabot.Application.AgentTurn.Stored.{result_from_stored}
use nexabot.Exec.{
  Exec, Result, ok, err, fails, pure, throw, raise_if, lift, or_raise, and_then, ◌>>=◌, ◌>>◌,
}

-- Either a result that was stored by an earlier attempt, or the claim to do the work.
pub data Checked : Type 0 where
  cached : AgentTurnResult → Checked
  claimed : Claim → Checked

abbrev in_progress : Result Checked
in_progress =
    fails (conflict_error "This request is already being processed." "agent_run_in_progress" [])

-- `not record.owned or record.claim_token is None`
abbrev claim_of : String → Bool → Option ℕ → Result Checked
claim_of key true (some token) = ok (claimed (record { key = key; token = token }))
claim_of key _ _ = in_progress

-- What `_check_idempotency` makes of the record.
unfoldable pub judge : String → IdempotencyRecord → Result Checked
judge key r = elim r.state [
  | completed ↦ and_then (result_from_stored r.result) (λ result. ok (cached result))
  | failed ↦ fails (
      conflict_error "A previous attempt for this request failed and was not retried."
        "agent_run_idempotency_failed" [])
  | started ↦ claim_of key r.owned r.claim_token
]

-- `_check_idempotency`
unfoldable pub check_idempotency : String → Exec World Checked
check_idempotency key = do
  found ← transaction (Idempotency.start idempotency_namespace key default_claim_ttl_seconds)
  lift (judge key found)

-- `AgentRun(...)`, started, with its first two steps. The draws are in the order of the code.
unfoldable pub started_run : ℕ → ℕ → RunAgentTurnCommand → Exec World AgentRun
started_run user_id conversation_id command = do
  run_id ← uuid4
  started_at ← utc_now
  running ← lift (
      start started_at
        (new_run run_id user_id conversation_id command.provider command.model command.limits))
  planning_id ← uuid4
  planned_at ← utc_now
  planned ← lift (record_step planning_id planned_at planning end running)
  call_id ← uuid4
  called_at ← utc_now
  lift (record_step call_id called_at model_call end planned)

-- `conversation.append_message(role=USER, content=text)`, and its row.
unfoldable pub append_user_message : String → Conversation → Exec World Conversation
append_user_message text conversation = do
  id ← uuid4
  created ← utc_now
  updated ← utc_now
  appended ← lift (Entity.append_message id created updated MessageRole.user text end conversation)
  Conversations.append_message appended.0
  pure appended.1

-- The conversation, if it exists and the actor owns it.
unfoldable pub owned_conversation : ℕ → RunAgentTurnCommand → Exec World Conversation
owned_conversation actor_id command = do
  found ← Conversations.get command.conversation_id command.context_window
  conversation ←
      or_raise found (not_found_error "Conversation not found." "conversation_not_found" [])
  raise_if (not (conversation.owner_id == actor_id)) (
      authorization_error "You are not allowed to use this conversation." "conversation_not_owned"
        [])
  pure conversation

-- The body of `_start_turn`.
unfoldable pub start_body : RunAgentTurnCommand → String → Exec World (Conversation × AgentRun)
start_body command text = do
  actor ← resolve_current_actor command.telegram_user_id
  conversation ← owned_conversation actor.id command
  appended ← append_user_message text conversation
  run ← started_run actor.id conversation.id command
  AgentRuns.add run
  pure (appended, run)

-- `_start_turn`
unfoldable pub start_turn : RunAgentTurnCommand → String → Exec World (Conversation × AgentRun)
start_turn command text = transaction (start_body command text)

-- `_remaining_seconds`, in microseconds.
unfoldable pub remaining : ℕ → AgentRun → ℤ
remaining now run = elim run.started_at [
  | none ↦ pos (run.limits.max_execution_seconds * 1000000)
  | some started_at ↦ sub_ℕ (run.limits.max_execution_seconds * 1000000 + started_at) now
]

abbrev deadline_exceeded : Exception
deadline_exceeded = domain_error (
    external_service_error "The agent run exceeded its execution budget."
      "agent_run_deadline_exceeded" true [])

abbrev llm_timeout : Exception
llm_timeout =
    domain_error
      (external_service_error "The model provider did not respond in time." "llm_timeout" true [])

-- `except TimeoutError`
abbrev timed_out : Exception → Exception
timed_out timeout_error = llm_timeout
timed_out exc = exc

-- `async with asyncio.timeout(limit): return await complete(request)`
unfoldable pub within : ℕ → Answer → Result LlmResponse
within limit (responds after response) = if ltb after limit then ok response else err llm_timeout
within limit (raises after exc) = if ltb after limit then err (timed_out exc) else err llm_timeout
within limit hangs = err llm_timeout

-- The request reaches the provider, whatever comes of it.
unfoldable pub send : ℕ → LlmRequest → Exec World LlmResponse
send limit request w = (
  within limit (w.host.complete (length w.sent) request),
  record w { sent = w.sent ++ request ∷ [] },
)

-- `_call_model`
unfoldable pub call_model : AgentRun → LlmRequest → Exec World LlmResponse
call_model run request = do
  now ← utc_now
  if not_positive (remaining now run)
      then throw deadline_exceeded
      else send (to_ℕ (remaining now run)) request
