-- ===== src/Domain/Agent/Closing.antt =====
-- domain/agent/entities.py: a terminal run stays as it is, and a running run can be closed.
use nexabot.Prelude.{if◌then◌else◌, [], ℕ, ◌≡◌, String, true, some, arith, is_empty, strip}
use nexabot.Domain.Json.{Json, Mapping, end, entry}
use nexabot.Domain.Agent.{
  AgentRun, running, succeeded, failed, AgentStepType, final_response, error, is_terminal, start,
  record_step, finish, fail, next_step, with_step,
}
use nexabot.Exec
use nexabot.Domain.Errors.{validation_error, default_validation_code}
use nexabot.Exec.{ok}
use nexabot.Domain.Agent.Lifecycle.{Move, starts, steps, finishes, fails}

-- From a terminal status no method moves a run again: each raises, whatever its arguments.
pub terminal_absorbs : {r r' : AgentRun} → is_terminal r.status ≡ true → ¬ Move r r'
unfolding start record_step finish fail
terminal_absorbs t (starts now h) = ground arith
terminal_absorbs t (steps new_id now type metadata h) = ground arith
terminal_absorbs t (finishes new_id step_now now response usage h) = ground arith
terminal_absorbs t (fails new_id step_now now reason h) = ground arith

-- The run with a closing step of a type, whatever its budget.
abbrev pub closed : ℕ → ℕ → AgentStepType → Mapping → AgentRun → AgentRun
closed new_id now type metadata r = with_step (next_step new_id now type metadata r) r

-- A running run can always be closed, however full its step budget is: `fail` returns the run,
-- failed for the reason, with one more step of type `error`; `finish` returns it, succeeded with
-- the response, with one more step of type `final_response`, and raises only if the response is
-- blank.
pub running_closes :
    (new_id step_now now : ℕ) (reason response : String) (usage : Mapping) (r : AgentRun)
    → r.status ≡ running
    → (fail new_id step_now now reason r
        ≡ ok (record (closed new_id step_now error (entry "reason" (Json.str reason) end) r) {
          status = failed;
          failure_reason = some reason;
          finished_at = some now;
        }))
      × (finish new_id step_now now response usage r ≡ (
          if is_empty (strip response)
          then Exec.fails
              (validation_error "Final response is required." default_validation_code [])
          else ok (record (closed new_id step_now final_response end r) {
            status = succeeded;
            final_response = some response;
            usage_metadata = usage;
            finished_at = some now;
          })))
unfolding fail finish
running_closes new_id step_now now reason response usage r live = (ground arith, ground arith)
