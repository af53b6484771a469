-- ===== src/Application/AgentTurn/Finish.antt =====
-- application/agent/use_cases.py: the end of a turn that the provider has answered.
use nexabot.Prelude.{ℕ, String, Option, none, some}
use nexabot.Domain.Json.{Json, Mapping, end, entry}
use nexabot.Domain.Agent.{AgentRun, validation, record_step, finish}
use nexabot.Domain.Conversations.{Conversation, Message, MessageRole}
use nexabot.Domain.Conversations as Entity
use nexabot.Ports.Gateway.{LlmUsage, LlmResponse}
use nexabot.Database.World.{World, utc_now, uuid4}
use nexabot.Database.UnitOfWork.{transaction}
use nexabot.Database.Idempotency
use nexabot.Database.Conversations
use nexabot.Database.AgentRuns
use nexabot.Application.AgentTurn.Command.{idempotency_namespace, Claim, AgentTurnResult}
use nexabot.Application.AgentTurn.Stored.{result_to_stored}
use nexabot.Exec.{Exec, Result, ok, err, pure, gets, ◌>>=◌, ◌>>◌}

-- The objects that the `try` block mutates, beside the world.
pub record Attempt : Type 0 where
  pub world : World
  pub run : AgentRun
  pub conversation : Conversation

abbrev pub in_world : {A : Type 0} → Exec World A → Exec Attempt A
in_world m a = let (r, w) = m a.world in (r, record a { world = w })

-- A method of the run, which leaves it alone when it raises.
abbrev pub on_run : (AgentRun → Result AgentRun) → Exec Attempt Unit
on_run method a = elim (method a.run) [
  | ok run ↦ (ok tt, record a { run = run })
  | err e ↦ (err e, a)
]

-- `conversation.append_message(...)`
unfoldable pub append_message : ℕ → ℕ → ℕ → MessageRole → String → Mapping → Exec Attempt Message
append_message id created updated role content metadata a =
    elim (Entity.append_message id created updated role content metadata a.conversation) [
      | ok (message, conversation) ↦ (ok message, record a { conversation = conversation })
      | err e ↦ (err e, a)
    ]

abbrev pub usage_metadata_of : LlmUsage → Mapping
usage_metadata_of usage = entry "input_tokens" (Json.num usage.input_tokens) (
    entry "output_tokens" (Json.num usage.output_tokens)
      (entry "total_tokens" (Json.num usage.total_tokens) end))

-- The assistant's message joins the conversation. Metadata that are absent are empty.
unfoldable pub append_assistant_message : String → LlmResponse → Exec Attempt Message
append_assistant_message content response = do
  id ← in_world uuid4
  created ← in_world utc_now
  updated ← in_world utc_now
  append_message id created updated MessageRole.assistant content response.provider_metadata

-- `run.record_step(VALIDATION)` and `run.finish(...)`
unfoldable pub finish_run : String → Mapping → Exec Attempt Unit
finish_run content usage = do
  validation_id ← in_world uuid4
  validated_at ← in_world utc_now
  on_run (record_step validation_id validated_at validation end)
  final_id ← in_world uuid4
  final_at ← in_world utc_now
  now ← in_world utc_now
  on_run (finish final_id final_at now content usage)

abbrev pub result_of : AgentRun → Conversation → Message → String → Mapping → AgentTurnResult
result_of run conversation message content usage = record {
  agent_run_id = run.id;
  conversation_id = conversation.id;
  assistant_message_id = message.id;
  response = content;
  status = run.status;
  usage_metadata = usage;
}

abbrev pub complete_if_any : Option Claim → AgentTurnResult → Exec World Unit
complete_if_any none result = pure tt
complete_if_any (some claim) result =
    Idempotency.complete idempotency_namespace claim.key (result_to_stored result) claim.token

-- The assistant's message, the finished run and the settled claim are one transaction.
unfoldable pub persist_body : Message → AgentRun → Option Claim → AgentTurnResult → Exec World Unit
persist_body message run claim result = do
  Conversations.append_message message
  AgentRuns.save run
  complete_if_any claim result

-- `_finish_turn`
unfoldable pub finish_turn : LlmResponse → String → Option Claim → Exec Attempt AgentTurnResult
finish_turn response content claim = do
  message ← append_assistant_message content response
  finish_run content (usage_metadata_of response.usage)
  run ← gets (λ a. a.run)
  conversation ← gets (λ a. a.conversation)
  let result = result_of run conversation message content (usage_metadata_of response.usage)
  in_world (transaction (persist_body message run claim result))
  pure result
