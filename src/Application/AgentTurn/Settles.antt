-- ===== src/Application/AgentTurn/Settles.antt =====
-- application/agent/use_cases.py: the settlement of a failed run reaches the database.
use nexabot.Prelude.{
  ℕ, ◌+◌, ◌≡◌, refl, ap, String, true, false, none, some, [], ◌∷◌, ◌++◌, arith, any, find, length,
  update_where, ◌==◌, find-passes,
}
use nexabot.Domain.Json.{Json, end, entry}
use nexabot.Domain.Agent.{
  is_terminal, AgentLimits, AgentRun, AgentStep, running, failed, error, make_limits, next_step,
}
use nexabot.Domain.Agent.Steps.{Numbered, Numbered-append}
use nexabot.Domain.Agent.Closing.{closed, running_closes}
use nexabot.Database.Tables.{AgentRunRow, AgentStepRow, Db, is_run, run_checked, limits_positive}
use nexabot.Database.World.{World, utc_now, uuid4}
use nexabot.Database.UnitOfWork.{enter, commit, exit, transaction}
use nexabot.Database.AgentRuns
use nexabot.Database.AgentRuns.{step_row, saved, highest_index, load_limits, to_domain}
use nexabot.Database.AgentRuns.Saving.{save-appends}
use nexabot.Application.AgentTurn.Settlement.{
  swallow, fail_and_save, settle_run_body, settle_failed_run,
}
use nexabot.Exec.{ok, and_then-eq-ok}

load_limits-positive :
    (l : AgentLimits) {l' : AgentLimits} → load_limits l ≡ ok l' → limits_positive l ≡ true
unfolding load_limits make_limits limits_positive
load_limits-positive l h = ground arith

to_domain-eq-ok :
    (row : AgentRunRow) (db : Db) {run : AgentRun}
    → to_domain row db ≡ ok run
    → (run.id ≡ row.id) × (limits_positive row.limits ≡ true)
unfolding to_domain
to_domain-eq-ok row db h =
    let (limits, checked, made) = and_then-eq-ok (load_limits row.limits) _ h in
    (ground arith, load_limits-positive row.limits checked)

-- The run as `fail` leaves it.
abbrev pub failed_run : ℕ → ℕ → ℕ → String → AgentRun → AgentRun
failed_run id step_at now reason p =
    record (closed id step_at error (entry "reason" (Json.str reason) end) p) {
      status = failed;
      failure_reason = some reason;
      finished_at = some now;
    }

failed_run-checked :
    (id step_at now : ℕ) (reason : String) (p : AgentRun) (row : AgentRunRow)
    → limits_positive row.limits ≡ true
    → run_checked (saved (failed_run id step_at now reason p) row) ≡ true
unfolding run_checked
failed_run-checked id step_at now reason p row h = ground arith

module _ (run : AgentRun) (reason : String) (w : World) (row : AgentRunRow) (p : AgentRun)
    (stored : find (is_run run.id) (enter w).db.agent_runs ≡ some row)
    (loaded : to_domain row (enter w).db ≡ ok p) (live : p.status ≡ running)
    (numbered : Numbered p.id 0 p.steps)
    (top : highest_index p.id (enter w).db.agent_steps ≡ length p.steps)
    (fresh : any (λ (r : AgentStepRow). r.id == w.host.uuid w.drawn) (enter w).db.agent_steps
      ≡ false)
    (quiet : w.host.commit_fault (w.begun + 1) ≡ none) where
  abbrev ended : AgentRun
  ended =
      failed_run (w.host.uuid w.drawn) (w.host.clock w.reads) (w.host.clock (w.reads + 1)) reason p

  abbrev error_step : AgentStep
  error_step =
      next_step (w.host.uuid w.drawn) (w.host.clock w.reads) error
        (entry "reason" (Json.str reason) end) p

  -- The world in which the failed run is saved.
  abbrev drawn : World
  drawn = record (enter w) { reads = w.reads + 1 + 1; drawn = w.drawn + 1 }

  abbrev settled_db : Db
  settled_db = record (enter w).db {
    agent_runs = update_where (is_run p.id) (saved ended) (enter w).db.agent_runs;
    agent_steps = (enter w).db.agent_steps ++ step_row error_step ∷ [];
  }

  same_id : p.id ≡ run.id
  same_id =
      let same = (to_domain-eq-ok row (enter w).db loaded).0 in
      ground (arith, find-passes (is_run run.id) (enter w).db.agent_runs row stored)

  saves : AgentRuns.save ended drawn ≡ (ok tt, record drawn { db = settled_db })
  saves =
      save-appends ended row p.steps error_step drawn (rw same_id stored)
        (failed_run-checked (w.host.uuid w.drawn) (w.host.clock w.reads)
          (w.host.clock (w.reads + 1)) reason p row (to_domain-eq-ok row (enter w).db loaded).1)
        refl (Numbered-append p.id 0 p.steps error_step numbered refl (omega arith)) top fresh

  fails_and_saves : fail_and_save p reason (enter w) ≡ (ok tt, record drawn { db = settled_db })
  unfolding fail_and_save uuid4 utc_now enter
  fails_and_saves =
      rw
        ((running_closes (w.host.uuid w.drawn) (w.host.clock w.reads) (w.host.clock (w.reads + 1))
          reason "" end p live).0)
        saves

  -- When the stored run still runs, its steps are stored as they are numbered, the new UUID is
  -- fresh and the commit succeeds, the settlement of the run raises nothing and does exactly this
  -- to the database: the row of the run is failed for the reason, and one more step, of type
  -- `error`, is stored. The step budget of the run does not matter.
  pub settle_failed_run-settles :
      settle_failed_run run reason w ≡ (ok tt, record drawn { db = settled_db })
  unfolding settle_failed_run swallow transaction exit commit settle_run_body AgentRuns.get enter
  settle_failed_run-settles =
      let open_yet : is_terminal p.status ≡ false = ap is_terminal live in
      rw (stored, loaded, open_yet, fails_and_saves, quiet) refl
