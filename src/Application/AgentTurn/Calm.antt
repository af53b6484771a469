-- ===== src/Application/AgentTurn/Calm.antt =====
-- application/agent/use_cases.py: the end of a turn sends nothing to the model provider.
use nexabot.Prelude.{ℕ, ◌≡◌, refl, ◌∙◌, String, Option, none, some, arith}
use nexabot.Domain.Json.{Mapping, end}
use nexabot.Domain.Agent.{AgentRun, validation, record_step, finish}
use nexabot.Domain.Conversations.{Message, MessageRole}
use nexabot.Ports.Gateway.{LlmResponse}
use nexabot.Database.World.{utc_now, uuid4}
use nexabot.Database.UnitOfWork.{transaction}
use nexabot.Database.Idempotency
use nexabot.Database.Conversations
use nexabot.Database.AgentRuns
use nexabot.Database.Silence.{
  IsSilent, >>=-IsSilent, transaction-IsSilent, settle-IsSilent, append_message-IsSilent,
  save_run-IsSilent,
}
use nexabot.Application.AgentTurn.Command.{Claim, AgentTurnResult}
use nexabot.Application.AgentTurn.Stored.{result_to_stored}
use nexabot.Application.AgentTurn.Finish.{
  Attempt, in_world, on_run, append_message, append_assistant_message, finish_run, persist_body,
  finish_turn, result_of, complete_if_any, usage_metadata_of,
}
use nexabot.Exec.{Exec, Result, ok, err, ◌>>=◌, continue, pure}

-- The silence of what also mutates the objects of the `try` block.
abbrev pub IsCalm : {A : Type 0} → Exec Attempt A → Type 0
IsCalm m = (a : Attempt) → (m a).1.world.sent ≡ a.world.sent

pub continue-IsCalm :
    {A B : Type 0} (r : Result A) (f : A → Exec Attempt B) (a : Attempt)
    → ((x : A) → IsCalm (f x))
    → (continue r f a).1.world.sent ≡ a.world.sent
continue-IsCalm (ok x) f a h = h x a
continue-IsCalm (err e) f a h = refl

pub >>=-IsCalm :
    {A B : Type 0} (m : Exec Attempt A) (f : A → Exec Attempt B)
    → IsCalm m
    → ((x : A) → IsCalm (f x))
    → IsCalm (m >>= f)
>>=-IsCalm m f first rest a = continue-IsCalm (m a).0 f (m a).1 rest ∙ first a

append_message-IsCalm :
    (id created updated : ℕ) (role : MessageRole) (content : String) (metadata : Mapping)
    → IsCalm (append_message id created updated role content metadata)
unfolding append_message
append_message-IsCalm id created updated role content metadata a = ground arith

on_run-IsCalm : (method : AgentRun → Result AgentRun) → IsCalm (on_run method)
on_run-IsCalm method a = ground arith

uuid4-IsCalm : IsCalm (in_world uuid4)
unfolding uuid4
uuid4-IsCalm a = refl

utc_now-IsCalm : IsCalm (in_world utc_now)
unfolding utc_now
utc_now-IsCalm a = refl

append_assistant-IsCalm :
    (content : String) (response : LlmResponse) → IsCalm (append_assistant_message content response)
unfolding append_assistant_message
append_assistant-IsCalm content response = >>=-IsCalm (in_world uuid4) _ uuid4-IsCalm λ id.
    >>=-IsCalm (in_world utc_now) _ utc_now-IsCalm λ created.
      >>=-IsCalm (in_world utc_now) _ utc_now-IsCalm λ updated.
        append_message-IsCalm id created updated MessageRole.assistant content
          response.provider_metadata

finish_run-IsCalm : (content : String) (usage : Mapping) → IsCalm (finish_run content usage)
unfolding finish_run
finish_run-IsCalm content usage = >>=-IsCalm (in_world uuid4) _ uuid4-IsCalm λ validation_id.
    >>=-IsCalm (in_world utc_now) _ utc_now-IsCalm λ validated_at.
      >>=-IsCalm (on_run (record_step validation_id validated_at validation end)) _
        (on_run-IsCalm (record_step validation_id validated_at validation end))
        λ _. >>=-IsCalm (in_world uuid4) _ uuid4-IsCalm λ final_id.
          >>=-IsCalm (in_world utc_now) _ utc_now-IsCalm λ final_at.
            >>=-IsCalm (in_world utc_now) _ utc_now-IsCalm
              λ now. on_run-IsCalm (finish final_id final_at now content usage)

complete-IsSilent :
    (claim : Option Claim) (result : AgentTurnResult) → IsSilent (complete_if_any claim result)
unfolding Idempotency.complete
complete-IsSilent none result w = refl
complete-IsSilent (some claim) result w =
    settle-IsSilent "agent_run" claim.key claim.token _ (result_to_stored result) w

persist-IsSilent :
    (message : Message) (run : AgentRun) (claim : Option Claim) (result : AgentTurnResult)
    → IsSilent (persist_body message run claim result)
unfolding persist_body
persist-IsSilent message run claim result =
    >>=-IsSilent (Conversations.append_message message) _ (append_message-IsSilent message) λ _.
      >>=-IsSilent (AgentRuns.save run) _ (save_run-IsSilent run)
        λ _. complete-IsSilent claim result

pub finish_turn-IsCalm :
    (response : LlmResponse) (content : String) (claim : Option Claim)
    → IsCalm (finish_turn response content claim)
unfolding finish_turn
finish_turn-IsCalm response content claim =
    >>=-IsCalm (append_assistant_message content response) _
      (append_assistant-IsCalm content response)
      λ message.
        >>=-IsCalm (finish_run content (usage_metadata_of response.usage)) _
          (finish_run-IsCalm content (usage_metadata_of response.usage))
          λ _. λ (a : Attempt).
            let result =
              result_of a.run a.conversation message content (usage_metadata_of response.usage) in
            let body = persist_body message a.run claim result in
            >>=-IsCalm {B = AgentTurnResult} (in_world (transaction body)) (λ _. pure result)
              (λ b. transaction-IsSilent body (persist-IsSilent message a.run claim result) b.world)
              (λ _ b. refl) a
