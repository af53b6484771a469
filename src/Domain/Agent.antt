-- ===== src/Domain/Agent.antt =====
-- domain/agent/entities.py: limits, steps and the state machine of an agent run.
pub mod Steps
pub mod Lifecycle
pub mod Closing
use nexabot.Prelude.{
  ℕ, suc, ◌+◌, String, Bool, true, false, not, ◌&&◌, ◌||◌, Option, none, some, List, [], ◌∷◌, ◌++◌,
  leb, is_empty, strip, length, if◌then◌else◌,
}
use nexabot.Prelude.Int.{ℤ, not_positive, to_ℕ}
use nexabot.Domain.Errors.{
  Detail, conflict_error, validation_error, agent_execution_error, default_validation_code,
}
use nexabot.Domain.Json.{Json, Mapping, end, entry}
use nexabot.Exec.{Result, ok, err, fails, and_then}

pub data AgentRunStatus : Type 0 where
  pending running succeeded failed cancelled : AgentRunStatus

unfoldable pub status_value : AgentRunStatus → String
status_value pending = "pending"
status_value running = "running"
status_value succeeded = "succeeded"
status_value failed = "failed"
status_value cancelled = "cancelled"

pub data AgentStepType : Type 0 where
  planning model_call tool_call tool_result validation final_response error : AgentStepType

-- `TERMINAL_STEP_TYPES`
abbrev pub is_terminal_step : AgentStepType → Bool
is_terminal_step final_response = true
is_terminal_step error = true
is_terminal_step _ = false

abbrev pub is_tool_call : AgentStepType → Bool
is_tool_call tool_call = true
is_tool_call _ = false

-- The limits of a constructed `AgentLimits` have passed the sign test, so they are naturals.
pub record AgentLimits : Type 0 where
  pub max_steps : ℕ
  pub max_tool_calls : ℕ
  pub max_retries : ℕ
  pub max_execution_seconds : ℕ
  pub max_context_tokens : ℕ

abbrev pub default_limits : AgentLimits
default_limits = record {
  max_steps = 12;
  max_tool_calls = 6;
  max_retries = 2;
  max_execution_seconds = 60;
  max_context_tokens = 12000;
}

abbrev name_if_invalid : String → ℤ → List String → List String
name_if_invalid name value rest = if not_positive value then name ∷ rest else rest

unfoldable pub invalid_fields : ℤ → ℤ → ℤ → ℤ → ℤ → List String
invalid_fields steps tools retries seconds tokens = name_if_invalid "max_steps" steps (
    name_if_invalid "max_tool_calls" tools (
      name_if_invalid "max_retries" retries (
        name_if_invalid "max_execution_seconds" seconds
          (name_if_invalid "max_context_tokens" tokens []))))

abbrev no_invalid : List String → AgentLimits → Result AgentLimits
no_invalid [] limits = ok limits
no_invalid (f ∷ fs) limits = fails (
    validation_error "Agent limits must be positive." default_validation_code
      (("invalid_fields", Detail.names (f ∷ fs)) ∷ []))

-- `AgentLimits(...)` with its `__post_init__`
unfoldable pub make_limits : ℤ → ℤ → ℤ → ℤ → ℤ → Result AgentLimits
unfolding invalid_fields
make_limits steps tools retries seconds tokens =
    no_invalid (invalid_fields steps tools retries seconds tokens) (record {
      max_steps = to_ℕ steps;
      max_tool_calls = to_ℕ tools;
      max_retries = to_ℕ retries;
      max_execution_seconds = to_ℕ seconds;
      max_context_tokens = to_ℕ tokens;
    })

pub record AgentStep : Type 0 where
  pub id : ℕ
  pub run_id : ℕ
  pub index : ℕ
  pub type : AgentStepType
  pub metadata : Mapping
  pub created_at : ℕ

pub record AgentRun : Type 0 where
  pub id : ℕ
  pub user_id : ℕ
  pub conversation_id : ℕ
  pub provider : String
  pub model : String
  pub limits : AgentLimits
  pub status : AgentRunStatus
  pub steps : List AgentStep
  pub started_at : Option ℕ
  pub finished_at : Option ℕ
  pub failure_reason : Option String
  pub final_response : Option String
  pub usage_metadata : Mapping

-- `AgentRun(id=..., ...)` with the defaults of the other fields.
unfoldable pub new_run : ℕ → ℕ → ℕ → String → String → AgentLimits → AgentRun
new_run id user_id conversation_id provider model limits = record {
  id = id;
  user_id = user_id;
  conversation_id = conversation_id;
  provider = provider;
  model = model;
  limits = limits;
  status = pending;
  steps = [];
  started_at = none;
  finished_at = none;
  failure_reason = none;
  final_response = none;
  usage_metadata = end;
}

abbrev pub is_pending : AgentRunStatus → Bool
is_pending pending = true
is_pending _ = false

abbrev pub is_running : AgentRunStatus → Bool
is_running running = true
is_running _ = false

-- `_TERMINAL_RUN_STATUSES`, and the set that `fail` tests.
abbrev pub is_terminal : AgentRunStatus → Bool
is_terminal succeeded = true
is_terminal failed = true
is_terminal cancelled = true
is_terminal _ = false

unfoldable pub start : ℕ → AgentRun → Result AgentRun
start now run =
    if is_pending run.status
    then ok (record run { status = running; started_at = some now })
    else fails (conflict_error "Only pending agent runs can be started." "agent_run_not_pending" [])

unfoldable pub count_tool_calls : List AgentStep → ℕ
count_tool_calls [] = 0
count_tool_calls (s ∷ steps) =
    let rest = count_tool_calls steps in if is_tool_call s.type then suc rest else rest

unfoldable pub tool_call_count : AgentRun → ℕ
unfolding count_tool_calls
tool_call_count run = count_tool_calls run.steps

unfoldable pub ensure_running : AgentRun → Result Unit
unfolding status_value
ensure_running run =
    if is_running run.status
    then ok tt
    else fails (
        conflict_error "Agent run is not running." "agent_run_not_running"
          (("status", Detail.text (status_value run.status)) ∷ []))

unfoldable pub ensure_step_budget : AgentStepType → AgentRun → Result Unit
ensure_step_budget type run =
    if is_terminal_step type
    then ok tt
    else if leb run.limits.max_steps (length run.steps)
    then fails
        (agent_execution_error "Agent step limit exceeded." "agent_step_limit_exceeded" false [])
    else if is_tool_call type && leb run.limits.max_tool_calls (tool_call_count run)
    then fails (
        agent_execution_error "Agent tool call limit exceeded." "agent_tool_limit_exceeded" false
          [])
    else ok tt

-- The step with its fresh id and its reading of the clock.
abbrev pub next_step : ℕ → ℕ → AgentStepType → Mapping → AgentRun → AgentStep
next_step new_id now type metadata run = record {
  id = new_id;
  run_id = run.id;
  index = length run.steps + 1;
  type = type;
  metadata = metadata;
  created_at = now;
}

abbrev pub with_step : AgentStep → AgentRun → AgentRun
with_step step run = record run { steps = run.steps ++ step ∷ [] }

unfoldable pub record_step : ℕ → ℕ → AgentStepType → Mapping → AgentRun → Result AgentRun
unfolding ensure_running ensure_step_budget
record_step new_id now type metadata run = and_then (ensure_running run) λ _.
    and_then (ensure_step_budget type run)
      λ _. ok (with_step (next_step new_id now type metadata run) run)

abbrev succeed : ℕ → String → Mapping → AgentRun → AgentRun
succeed now response usage run = record run {
  status = succeeded;
  final_response = some response;
  usage_metadata = usage;
  finished_at = some now;
}

-- The fresh id and the reading are those of the step; `now` is the reading for `finished_at`.
unfoldable pub finish : ℕ → ℕ → ℕ → String → Mapping → AgentRun → Result AgentRun
unfolding record_step ensure_running
finish new_id step_now now response usage run = and_then (ensure_running run) λ _.
    if is_empty (strip response)
    then fails (validation_error "Final response is required." default_validation_code [])
    else and_then (record_step new_id step_now final_response end run)
        λ stepped. ok (succeed now response usage stepped)

abbrev close_failed : ℕ → String → AgentRun → AgentRun
close_failed now reason run = record run {
  status = failed;
  failure_reason = some reason;
  finished_at = some now;
}

unfoldable pub fail : ℕ → ℕ → ℕ → String → AgentRun → Result AgentRun
unfolding record_step
fail new_id step_now now reason run =
    if is_terminal run.status
    then fails
        (conflict_error "Terminal agent runs cannot transition again." "agent_run_terminal" [])
    else and_then
        (if is_running run.status
          then record_step new_id step_now error (entry "reason" (Json.str reason) end) run
          else ok run)
        λ stepped. ok (close_failed now reason stepped)
