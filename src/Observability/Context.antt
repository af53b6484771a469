-- ===== src/Observability/Context.antt =====
-- observability/context.py: the context that the logs of a request carry.
use nexabot.Prelude.{String, Option, none, some, List, [], ◌∷◌, ◌++◌}

pub record TraceContext : Type 0 where
  pub request_id : Option String
  pub user_id : Option String
  pub conversation_id : Option String
  pub agent_run_id : Option String
  pub task_id : Option String

abbrev pub empty_context : TraceContext
empty_context = record {
  request_id = none;
  user_id = none;
  conversation_id = none;
  agent_run_id = none;
  task_id = none;
}

abbrev field_if : String → Option String → List (String × String)
field_if key none = []
field_if key (some value) = (key, value) ∷ []

unfoldable pub as_log_fields : TraceContext → List (String × String)
as_log_fields context =
    field_if "request_id" context.request_id
    ++ field_if "user_id" context.user_id
    ++ field_if "conversation_id" context.conversation_id
    ++ field_if "agent_run_id" context.agent_run_id
    ++ field_if "task_id" context.task_id

-- `get_trace_context`, on the value of the context variable.
abbrev pub get_trace_context : Option TraceContext → TraceContext
get_trace_context none = empty_context
get_trace_context (some context) = context
