-- ===== src/Database/AgentRuns.antt =====
-- infrastructure/database/repositories/agent.py
pub mod Finishing
pub mod Saving
pub mod Reading
use nexabot.Prelude.{
  ℕ, ◌+◌, String, Bool, true, false, Option, none, some, List, [], ◌∷◌, ◌++◌, map, ltb, leb, ◌==◌,
  any, find, select, update_where, if◌then◌else◌,
}
use nexabot.Prelude.Int.{pos}
use nexabot.Domain.Errors.{integrity_error, not_found_error}
use nexabot.Domain.Agent.{AgentLimits, make_limits, AgentStep, AgentRun}
use nexabot.Database.Tables.{
  AgentRunRow, AgentStepRow, Db, is_run, run_checked, run_accepted, step_accepted,
}
use nexabot.Database.World.{World}
use nexabot.Exec.{Exec, Result, ok, err, pure, raise, lift, gets, and_then, ◌>>=◌, ◌>>◌}

abbrev pub step_row : AgentStep → AgentStepRow
step_row s = record {
  id = s.id;
  run_id = s.run_id;
  index = s.index;
  type = s.type;
  meta = s.metadata;
  created_at = s.created_at;
}

abbrev pub step_of : AgentStepRow → AgentStep
step_of r = record {
  id = r.id;
  run_id = r.run_id;
  index = r.index;
  type = r.type;
  metadata = r.meta;
  created_at = r.created_at;
}

-- The INSERT of a step, flushed.
unfoldable pub append_step : AgentStep → Exec World Unit
append_step s w =
    if step_accepted (step_row s) w.db
    then (
      ok tt,
      record w { db = record w.db { agent_steps = w.db.agent_steps ++ step_row s ∷ [] } },
    )
    else (err integrity_error, w)

unfoldable pub append_steps : List AgentStep → Exec World Unit
append_steps [] = pure tt
append_steps (s ∷ steps) = let rest = append_steps steps in do append_step s; rest

unfoldable pub row_of : AgentRun → AgentRunRow
row_of run = record {
  id = run.id;
  user_id = run.user_id;
  conversation_id = run.conversation_id;
  status = run.status;
  provider = run.provider;
  model = run.model;
  started_at = run.started_at;
  finished_at = run.finished_at;
  failure_reason = run.failure_reason;
  final_response = run.final_response;
  usage_metadata = run.usage_metadata;
  limits = run.limits;
}

unfoldable pub insert_run : AgentRunRow → Exec World Unit
insert_run row w =
    if run_accepted row w.db
    then (ok tt, record w { db = record w.db { agent_runs = w.db.agent_runs ++ row ∷ [] } })
    else (err integrity_error, w)

unfoldable pub add : AgentRun → Exec World Unit
add run = do insert_run (row_of run); append_steps run.steps

-- The columns that `save` writes.
abbrev pub saved : AgentRun → AgentRunRow → AgentRunRow
saved run r = record r {
  status = run.status;
  started_at = run.started_at;
  finished_at = run.finished_at;
  failure_reason = run.failure_reason;
  final_response = run.final_response;
  usage_metadata = run.usage_metadata;
}

-- `coalesce(max(index), 0)` over the steps of a run.
unfoldable pub highest_index : ℕ → List AgentStepRow → ℕ
highest_index run_id [] = 0
highest_index run_id (r ∷ rows) =
    let rest = highest_index run_id rows in
    if r.run_id == run_id then (if leb rest r.index then r.index else rest) else rest

-- The steps whose index is above the highest stored one.
unfoldable pub new_steps : ℕ → List AgentStep → List AgentStep
new_steps highest = select (λ (s : AgentStep). ltb highest s.index)

-- The UPDATE is checked when the next query flushes it.
unfoldable pub update_run : AgentRun → AgentRunRow → Exec World Unit
update_run run row w =
    if run_checked (saved run row)
    then (
      ok tt,
      record w {
        db = record w.db { agent_runs = update_where (is_run run.id) (saved run) w.db.agent_runs };
      },
    )
    else (err integrity_error, w)

unfoldable pub save : AgentRun → Exec World Unit
save run = do
  found ← gets (λ w. find (is_run run.id) w.db.agent_runs)
  elim found [
    | none ↦ raise (not_found_error "Agent run not found." "agent_run_not_found" [])
    | some row ↦ (do
      update_run run row
      highest ← gets (λ w. highest_index run.id w.db.agent_steps)
      append_steps (new_steps highest run.steps))
  ]

-- `ORDER BY index ASC`
unfoldable pub insert_by_index : AgentStepRow → List AgentStepRow → List AgentStepRow
insert_by_index x [] = x ∷ []
insert_by_index x (y ∷ ys) = if leb x.index y.index then x ∷ y ∷ ys else y ∷ insert_by_index x ys

unfoldable pub by_index : List AgentStepRow → List AgentStepRow
by_index [] = []
by_index (x ∷ xs) = insert_by_index x (by_index xs)

unfoldable pub load_steps : ℕ → List AgentStepRow → List AgentStep
load_steps run_id rows =
    map step_of (by_index (select (λ (r : AgentStepRow). r.run_id == run_id) rows))

-- `AgentLimits(...)` over the stored columns, which checks them once more.
unfoldable pub load_limits : AgentLimits → Result AgentLimits
load_limits l =
    make_limits (pos l.max_steps) (pos l.max_tool_calls) (pos l.max_retries)
      (pos l.max_execution_seconds) (pos l.max_context_tokens)

-- `_to_domain`
unfoldable pub to_domain : AgentRunRow → Db → Result AgentRun
to_domain row db = and_then (load_limits row.limits) λ limits. ok (record {
  id = row.id;
  user_id = row.user_id;
  conversation_id = row.conversation_id;
  provider = row.provider;
  model = row.model;
  limits = limits;
  status = row.status;
  steps = load_steps row.id db.agent_steps;
  started_at = row.started_at;
  finished_at = row.finished_at;
  failure_reason = row.failure_reason;
  final_response = row.final_response;
  usage_metadata = row.usage_metadata;
})

abbrev pub load_run : Option AgentRunRow → Db → Result (Option AgentRun)
load_run none db = ok none
load_run (some row) db = and_then (to_domain row db) λ run. ok (some run)

unfoldable pub get : ℕ → Exec World (Option AgentRun)
get run_id w = (load_run (find (is_run run_id) w.db.agent_runs) w.db, w)
