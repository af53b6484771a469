-- ===== src/Application/AgentTurn/Request.antt =====
-- application/agent/use_cases.py: the request to the provider, and the checks of its response.
use nexabot.Prelude.{
  String, Bool, true, false, Option, none, some, List, [], ◌∷◌, map, is_empty, strip, if◌then◌else◌,
}
use nexabot.Prelude.Int.{ℤ, pos, sub_ℕ}
use nexabot.Domain.Errors.{Detail, agent_execution_error}
use nexabot.Domain.Conversations.{Conversation, Message, MessageRole, recent_messages}
use nexabot.Domain.Context.{estimate_tokens, select_within_token_budget}
use nexabot.Ports.Gateway.{LlmMessageRole, LlmMessage, LlmRequest, LlmToolCall, LlmResponse}
use nexabot.Application.AgentTurn.Command.{RunAgentTurnCommand}
use nexabot.Exec.{Result, ok, fails, and_then}

-- `_DOMAIN_TO_LLM_ROLE`
abbrev pub llm_role : MessageRole → LlmMessageRole
llm_role MessageRole.system = LlmMessageRole.system
llm_role MessageRole.user = LlmMessageRole.user
llm_role MessageRole.assistant = LlmMessageRole.assistant
llm_role MessageRole.tool = LlmMessageRole.tool

abbrev pub llm_message : Message → LlmMessage
llm_message m = record { role = llm_role m.role; content = m.content; name = none }

abbrev pub system_message : String → LlmMessage
system_message prompt = record { role = LlmMessageRole.system; content = prompt; name = none }

-- What is left of the token budget beside the system prompt.
abbrev pub history_budget : String → RunAgentTurnCommand → ℤ
history_budget prompt command = sub_ℕ command.limits.max_context_tokens (estimate_tokens prompt)

abbrev pub request_with : String → RunAgentTurnCommand → List Message → LlmRequest
request_with prompt command history = record {
  provider = command.provider;
  model = command.model;
  messages = system_message prompt ∷ map llm_message history;
}

unfoldable pub request_of : String → RunAgentTurnCommand → List Message → Result LlmRequest
request_of prompt command [] = fails (
    agent_execution_error "The system prompt leaves no room for conversation context."
      "agent_context_budget_exhausted" false
      (("max_context_tokens", Detail.int (pos command.limits.max_context_tokens)) ∷ []))
request_of prompt command (m ∷ history) = ok (request_with prompt command (m ∷ history))

-- `_build_request`
unfoldable pub build_request : String → RunAgentTurnCommand → Conversation → Result LlmRequest
build_request prompt command conversation =
    and_then (recent_messages command.context_window conversation) λ recent.
      request_of prompt command (select_within_token_budget (history_budget prompt command) recent)

abbrev pub or_blank : Option String → String
or_blank none = ""
or_blank (some s) = s

abbrev no_tools : List LlmToolCall → Bool
no_tools [] = true
no_tools (c ∷ cs) = false

-- `_validate_response`
unfoldable pub validate_response : LlmResponse → Result String
validate_response response =
    if no_tools response.tool_calls
    then (let content = strip (or_blank response.content) in
        if is_empty content
        then fails (
            agent_execution_error "The model returned an empty response." "agent_run_empty_response"
              false [])
        else ok content)
    else fails (
        agent_execution_error
          "The model requested a tool call, but no ToolExecutor port is wired yet."
          "agent_tool_execution_unsupported" false [])
