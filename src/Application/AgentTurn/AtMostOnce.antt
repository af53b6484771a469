-- ===== src/Application/AgentTurn/AtMostOnce.antt =====
-- application/agent/use_cases.py: a turn calls the model provider at most once.
use nexabot.Prelude.{
  ◌≡◌, refl, ap, ◌∙◌, ◌⊎◌, inl, inr, String, Option, none, some, List, [], ◌∷◌, ◌++◌, Bool-cases,
}
use nexabot.Prelude.Int.{not_positive}
use nexabot.Domain.Agent.{AgentRun}
use nexabot.Domain.Conversations.{Conversation}
use nexabot.Ports.Gateway.{LlmRequest, LlmResponse}
use nexabot.Database.World.{World, utc_now}
use nexabot.Database.Silence.{IsSilent}
use nexabot.Application.AgentTurn.Command.{
  Claim, RunAgentTurnCommand, AgentTurnResult, validate_input,
}
use nexabot.Application.AgentTurn.Request.{build_request, validate_response}
use nexabot.Application.AgentTurn.Phases.{
  Checked, cached, claimed, check_idempotency, start_turn, send, call_model, remaining,
}
use nexabot.Application.AgentTurn.Silence.{
  check-IsSilent, start_turn-IsSilent, handle_failure-IsSilent,
}
use nexabot.Application.AgentTurn.Finish.{Attempt, finish_turn}
use nexabot.Application.AgentTurn.Calm.{IsCalm, continue-IsCalm, >>=-IsCalm, finish_turn-IsCalm}
use nexabot.Application.AgentTurn.Execute.{
  attempt, settled, run_started, run_claimed, continue_with, dispatch, execute,
}
use nexabot.Exec.{Exec, Result, ok, err, ◌>>=◌, continue, lift}

-- Nothing more was sent, or one request.
abbrev pub SentOnce : List LlmRequest → List LlmRequest → Type 0
SentOnce before after =
    (after ≡ before) ⊎ ((request : LlmRequest) × (after ≡ before ++ request ∷ []))

abbrev IsThrifty : {A : Type 0} → Exec World A → Type 0
IsThrifty m = (w : World) → SentOnce w.sent (m w).1.sent

-- Silence before or after one request leaves it one request.
follow :
    (before between after : List LlmRequest)
    → SentOnce before between
    → after ≡ between
    → SentOnce before after
follow before between after (inl e) same = inl (same ∙ e)
follow before between after (inr (request, e)) same = inr (request, same ∙ e)

lead :
    (before between after : List LlmRequest)
    → between ≡ before
    → SentOnce between after
    → SentOnce before after
lead before between after same (inl e) = inl (e ∙ same)
lead before between after same (inr (request, e)) =
    inr (request, e ∙ ap (λ l. l ++ request ∷ []) same)

continue-IsThrifty :
    {A B : Type 0} (r : Result A) (f : A → Exec World B) (w : World)
    → ((a : A) → IsThrifty (f a))
    → SentOnce w.sent (continue r f w).1.sent
continue-IsThrifty (ok a) f w h = h a w
continue-IsThrifty (err e) f w h = inl refl

>>=-IsThrifty :
    {A B : Type 0} (m : Exec World A) (f : A → Exec World B)
    → IsSilent m
    → ((a : A) → IsThrifty (f a))
    → IsThrifty (m >>= f)
>>=-IsThrifty m f silent h w =
    lead w.sent (m w).1.sent ((m >>= f) w).1.sent (silent w)
      (continue-IsThrifty (m w).0 f (m w).1 h)

call_model-IsThrifty : (run : AgentRun) (request : LlmRequest) → IsThrifty (call_model run request)
unfolding call_model send utc_now
call_model-IsThrifty run request w =
    elim (Bool-cases (not_positive (remaining (w.host.clock w.reads) run))) [
      | inl late ↦ inl (rw late refl)
      | inr early ↦ inr (request, rw early refl)
    ]

lifted-SentOnce :
    {A B : Type 0} (r : Result A) (f : A → Exec Attempt B) (a : Attempt)
    → ((x : A) → SentOnce a.world.sent (f x a).1.world.sent)
    → SentOnce a.world.sent (continue r f a).1.world.sent
lifted-SentOnce (ok x) f a h = h x
lifted-SentOnce (err e) f a h = inl refl

answered-IsCalm :
    (claim : Option Claim) (response : LlmResponse)
    → IsCalm (lift (validate_response response) >>= λ content. finish_turn response content claim)
answered-IsCalm claim response =
    >>=-IsCalm (lift (validate_response response)) _ (λ b. refl)
      λ content. finish_turn-IsCalm response content claim

attempt-SentOnce :
    (prompt : String) (command : RunAgentTurnCommand) (claim : Option Claim) (a : Attempt)
    → SentOnce a.world.sent (attempt prompt command claim a).1.world.sent
unfolding attempt
attempt-SentOnce prompt command claim a =
    lifted-SentOnce (build_request prompt command a.conversation) _ a λ request.
      follow a.world.sent (call_model a.run request a.world).1.sent _
        (call_model-IsThrifty a.run request a.world)
        (continue-IsCalm (call_model a.run request a.world).0
          (λ response.
            lift (validate_response response) >>= λ content. finish_turn response content claim)
          (record a { world = (call_model a.run request a.world).1 }) (answered-IsCalm claim))

settled-SentOnce :
    (before : List LlmRequest) (claim : Option Claim) (r : Result AgentTurnResult) (a : Attempt)
    → SentOnce before a.world.sent
    → SentOnce before (settled claim (r, a)).1.sent
settled-SentOnce before claim (ok result) a h = h
settled-SentOnce before claim (err exc) a h =
    follow before a.world.sent _ h (handle_failure-IsSilent a.run claim exc a.world)

run_started-IsThrifty :
    (prompt : String) (command : RunAgentTurnCommand) (claim : Option Claim)
    (conversation : Conversation) (run : AgentRun)
    → IsThrifty (run_started prompt command claim conversation run)
unfolding run_started
run_started-IsThrifty prompt command claim conversation run w =
    let a : Attempt = record { world = w; run = run; conversation = conversation } in
    settled-SentOnce w.sent claim (attempt prompt command claim a).0
      (attempt prompt command claim a).1 (attempt-SentOnce prompt command claim a)

run_claimed-IsThrifty :
    (prompt : String) (command : RunAgentTurnCommand) (text : String) (claim : Option Claim)
    → IsThrifty (run_claimed prompt command text claim)
unfolding run_claimed
run_claimed-IsThrifty prompt command text claim =
    >>=-IsThrifty (start_turn command text) _ (start_turn-IsSilent command text)
      λ begun. run_started-IsThrifty prompt command claim begun.0 begun.1

continue_with-IsThrifty :
    (prompt : String) (command : RunAgentTurnCommand) (text : String) (checked : Checked)
    → IsThrifty (continue_with prompt command text checked)
continue_with-IsThrifty prompt command text (cached result) w = inl refl
continue_with-IsThrifty prompt command text (claimed claim) w =
    run_claimed-IsThrifty prompt command text (some claim) w

dispatch-IsThrifty :
    (prompt : String) (command : RunAgentTurnCommand) (text : String) (key : Option String)
    → IsThrifty (dispatch prompt command text key)
dispatch-IsThrifty prompt command text none w = run_claimed-IsThrifty prompt command text none w
dispatch-IsThrifty prompt command text (some key) w =
    >>=-IsThrifty (check_idempotency key) _ (check-IsSilent key)
      (continue_with-IsThrifty prompt command text) w

-- Whatever the provider, the database and the other workers do, one execution of the use case
-- sends the provider at most one request.
pub execute-SentOnce :
    (prompt : String) (command : RunAgentTurnCommand) (w : World)
    → SentOnce w.sent (execute prompt command w).1.sent
unfolding execute
execute-SentOnce prompt command w =
    continue-IsThrifty (validate_input command) _ w
      λ text. dispatch-IsThrifty prompt command text command.idempotency_key
