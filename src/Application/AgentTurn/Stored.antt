-- ===== src/Application/AgentTurn/Stored.antt =====
-- application/agent/use_cases.py: the result of a turn as the stored JSON of its claim.
use nexabot.Prelude.{ℕ, String, Option, none, some, str_eq, if◌then◌else◌, ◌≡◌, refl}
use nexabot.Domain.Errors.{other}
use nexabot.Domain.Json.{Json, Mapping, end, entry, get}
use nexabot.Domain.Agent.{
  AgentRunStatus, pending, running, succeeded, failed, cancelled, status_value,
}
use nexabot.Application.AgentTurn.Command.{AgentTurnResult}
use nexabot.Exec.{Result, ok, err, and_then}

-- `_result_to_stored`
unfoldable pub result_to_stored : AgentTurnResult → Mapping
unfolding status_value
result_to_stored result = entry "agent_run_id" (Json.uuid result.agent_run_id) (
    entry "conversation_id" (Json.uuid result.conversation_id) (
      entry "assistant_message_id" (Json.uuid result.assistant_message_id) (
        entry "response" (Json.str result.response) (
          entry "status" (Json.str (status_value result.status))
            (entry "usage_metadata" (Json.obj result.usage_metadata) end)))))

-- `data[key]`
abbrev pub item : String → Mapping → Result Json
item key stored = elim (get key stored) [ none ↦ err (other "KeyError") | some v ↦ ok v ]

-- `UUID(str(v))`
abbrev pub uuid_of : Json → Result ℕ
uuid_of (Json.uuid u) = ok u
uuid_of _ = err (other "ValueError")

-- `str(v)`, for the texts that the code stores.
abbrev pub text_of : Json → Result String
text_of (Json.str s) = ok s
text_of _ = err (other "ValueError")

-- `AgentRunStatus(text)`
unfoldable pub status_of : String → Result AgentRunStatus
status_of text =
    if str_eq text "pending"
    then ok pending
    else if str_eq text "running"
    then ok running
    else if str_eq text "succeeded"
    then ok succeeded
    else if str_eq text "failed"
    then ok failed
    else if str_eq text "cancelled"
    then ok cancelled
    else err (other "ValueError")

-- `dict(usage) if isinstance(usage, Mapping) else {}`
abbrev pub mapping_of : Option Json → Mapping
mapping_of (some (Json.obj m)) = m
mapping_of _ = end

-- `_result_from_stored`
unfoldable pub result_from_stored : Mapping → Result AgentTurnResult
unfolding get status_of
result_from_stored stored = and_then (and_then (item "agent_run_id" stored) uuid_of) λ run_id.
    and_then (and_then (item "conversation_id" stored) uuid_of) λ conversation_id.
      and_then (and_then (item "assistant_message_id" stored) uuid_of) λ message_id.
        and_then (and_then (item "response" stored) text_of) λ response.
          and_then (and_then (and_then (item "status" stored) text_of) status_of) λ status.
            ok (record {
              agent_run_id = run_id;
              conversation_id = conversation_id;
              assistant_message_id = message_id;
              response = response;
              status = status;
              usage_metadata = mapping_of (get "usage_metadata" stored);
            })

status_of-status_value : (s : AgentRunStatus) → status_of (status_value s) ≡ ok s
unfolding status_of status_value
status_of-status_value pending = refl
status_of-status_value running = refl
status_of-status_value succeeded = refl
status_of-status_value failed = refl
status_of-status_value cancelled = refl

-- Reading back a stored result gives the result that was stored, every field included.
pub result_from_stored-result_to_stored :
    (result : AgentTurnResult) → result_from_stored (result_to_stored result) ≡ ok result
unfolding result_from_stored result_to_stored
result_from_stored-result_to_stored result = rw (status_of-status_value result.status) refl
