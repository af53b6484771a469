-- ===== src/Application/AgentTurn/Prompt.antt =====
-- application/agent/use_cases.py: the request that `_build_request` makes of a conversation.
use nexabot.Prelude.{
  ℕ, ◌+◌, ◌≤◌, ◌≡◌, refl, ◌∙◌, sym, String, List, [], ◌∷◌, ◌++◌, arith, map, reverse, last_n,
}
use nexabot.Prelude.Int.{sub_ℕ, to_ℕ}
use nexabot.Domain.Conversations.{Conversation, Message, recent_messages}
use nexabot.Domain.Conversations.History.{IsView, recent_messages-IsView}
use nexabot.Domain.Context.{estimate_tokens, select_within_token_budget}
use nexabot.Domain.Context.Budget.{cost, Overflows, select_within_token_budget-IsSelection}
use nexabot.Ports.Gateway.{LlmMessage, LlmRequest}
use nexabot.Application.AgentTurn.Command.{RunAgentTurnCommand}
use nexabot.Application.AgentTurn.Request.{
  llm_message, system_message, history_budget, request_with, request_of, build_request,
}
use nexabot.Exec.{ok, and_then-eq-ok}

-- What a request costs by the estimate.
abbrev pub request_cost : List LlmMessage → ℕ
request_cost [] = 0
request_cost (m ∷ ms) = estimate_tokens m.content + request_cost ms

request_cost-map : (ms : List Message) → request_cost (map llm_message ms) ≡ cost ms
request_cost-map [] = refl
request_cost-map (m ∷ ms) = omega (arith, request_cost-map ms)

request_of-eq-ok :
    (prompt : String) (command : RunAgentTurnCommand) (history : List Message)
    {request : LlmRequest}
    → request_of prompt command history ≡ ok request
    → (request ≡ request_with prompt command history)
      × (m : Message) × (rest : List Message) × (history ≡ m ∷ rest)
unfolding request_of
request_of-eq-ok prompt command [] h = absurd (ground arith)
request_of-eq-ok prompt command (m ∷ ms) h = (ground arith, m, ms, refl)

-- A positive history budget is what the prompt leaves of the whole.
budget_split : (whole prompt n : ℕ) → n ≤ to_ℕ (sub_ℕ whole prompt) → 1 ≤ n → prompt + n ≤ whole
budget_split whole prompt n h some_left = ground arith

cost-positive : (m : Message) (ms : List Message) → 1 ≤ cost (m ∷ ms)
unfolding estimate_tokens
cost-positive m ms = omega arith

prompt_affordable :
    (prompt : String) (command : RunAgentTurnCommand) (chosen : List Message) (m : Message)
    (ms : List Message)
    → chosen ≡ m ∷ ms
    → cost chosen ≤ to_ℕ (history_budget prompt command)
    → request_cost (system_message prompt ∷ map llm_message chosen)
      ≤ command.limits.max_context_tokens
prompt_affordable prompt command chosen m ms full fits =
    let some_cost = cost-positive m ms in
    let split =
      budget_split command.limits.max_context_tokens (estimate_tokens prompt) (cost chosen) fits
        (ground arith) in
    rw (request_cost-map chosen) split

-- The request for a conversation that is a view of its stored history: the system prompt, then a
-- run of the newest messages.
pub record IsPrompt (prompt : String) (command : RunAgentTurnCommand) (history : List Message)
    (request : LlmRequest) : Type 0 where
  pub provider : request.provider ≡ command.provider
  pub model : request.model ≡ command.model
  pub older : List Message
  pub chosen : List Message
  pub head : Message
  pub tail : List Message
  pub messages : request.messages ≡ system_message prompt ∷ map llm_message chosen
  pub newest : last_n (to_ℕ command.context_window) history ≡ older ++ chosen
  pub some_history : chosen ≡ head ∷ tail
  pub maximal : Overflows (to_ℕ (history_budget prompt command)) chosen (reverse older)
  pub affordable : request_cost request.messages ≤ command.limits.max_context_tokens

-- A request that `_build_request` makes goes to the provider and model of the command and holds
-- the system prompt and then, in their order, a non-empty run of the newest messages of the stored
-- history and of the window; its estimated cost, the prompt included, is within the limit, and one
-- older message of the window would not have fitted.
pub build_request-IsPrompt :
    (prompt : String) (command : RunAgentTurnCommand) (c : Conversation) (history : List Message)
    (request : LlmRequest)
    → IsView c history
    → build_request prompt command c ≡ ok request
    → IsPrompt prompt command history request
unfolding build_request
build_request-IsPrompt prompt command c history request v h =
    let (recent, loaded, made) = and_then-eq-ok (recent_messages command.context_window c) _ h in
    let budget = history_budget prompt command in
    let (older, selected) = select_within_token_budget-IsSelection budget recent in
    let (same, m, ms, full) =
      request_of-eq-ok prompt command (select_within_token_budget budget recent) made in
    rw same (record {
      provider = refl;
      model = refl;
      older = older;
      chosen = select_within_token_budget budget recent;
      head = m;
      tail = ms;
      messages = refl;
      newest =
          sym (recent_messages-IsView command.context_window c history recent v loaded)
          ∙ selected.contiguous;
      some_history = full;
      maximal = selected.maximal;
      affordable =
          prompt_affordable prompt command (select_within_token_budget budget recent) m ms full
            selected.fits;
    })
