-- ===== src/Database/AgentRuns/Saving.antt =====
-- infrastructure/database/repositories/agent.py: what `save` writes of a run.
use nexabot.Prelude.{
  ℕ, suc, ◌+◌, ◌≤◌, ◌<◌, ◌≡◌, refl, subst, true, false, some, List, [], ◌∷◌, ◌++◌, arith, any, find,
  update_where, length, ◌==◌,
}
use nexabot.Domain.Agent.{AgentRun, AgentStep}
use nexabot.Domain.Agent.Steps.{Numbered}
use nexabot.Database.Tables.{
  AgentRunRow, AgentStepRow, is_run, is_step_at, run_checked, step_accepted,
}
use nexabot.Database.World.{World}
use nexabot.Database.AgentRuns.{
  step_row, append_step, append_steps, saved, highest_index, new_steps, update_run, save,
}
use nexabot.Exec.{ok}

-- Nothing is stored above the highest index.
pub index_free :
    (id index : ℕ) (rows : List AgentStepRow)
    → highest_index id rows < index
    → any (is_step_at id index) rows ≡ false
unfolding highest_index
index_free id index [] h = refl
index_free id index (r ∷ rows) h = ground (arith, index_free id index rows)

-- The steps up to the highest index are not written again.
new_steps-old :
    (id highest k : ℕ) (steps : List AgentStep)
    → Numbered id k steps
    → k + length steps ≤ highest
    → new_steps highest steps ≡ []
unfolding new_steps
new_steps-old id highest k [] numbered h = refl
new_steps-old id highest k (s ∷ steps) numbered h =
    let rest = new_steps-old id highest (suc k) steps numbered.2 (omega (arith, h)) in
    ground (arith, numbered.1)

new_steps-last :
    (id highest k : ℕ) (old : List AgentStep) (s : AgentStep)
    → Numbered id k (old ++ s ∷ [])
    → highest ≡ k + length old
    → new_steps highest (old ++ s ∷ []) ≡ s ∷ []
unfolding new_steps
new_steps-last id highest k [] s numbered h = ground (arith, numbered.1)
new_steps-last id highest k (t ∷ old) s numbered h =
    let rest = new_steps-last id highest (suc k) old s numbered.2 (omega (arith, h)) in
    ground (arith, numbered.1)

Numbered-last :
    (id k : ℕ) (old : List AgentStep) (s : AgentStep)
    → Numbered id k (old ++ s ∷ [])
    → (s.run_id ≡ id) × (s.index ≡ suc (k + length old))
Numbered-last id k [] s numbered = (numbered.0, omega (arith, numbered.1))
Numbered-last id k (t ∷ old) s numbered =
    let (owner, at) = Numbered-last id (suc k) old s numbered.2 in (owner, omega (arith, at))

pub run_kept :
    (run : AgentRun) (rows : List AgentRunRow) (row : AgentRunRow)
    → find (is_run run.id) rows ≡ some row
    → any (is_run run.id) (update_where (is_run run.id) (saved run) rows) ≡ true
run_kept run [] row h = absurd (ground arith)
run_kept run (r ∷ rows) row h = ground (arith, run_kept run rows row)

module _ (run : AgentRun) (row : AgentRunRow) (old : List AgentStep) (s : AgentStep) (w : World)
    (stored : find (is_run run.id) w.db.agent_runs ≡ some row)
    (checked : run_checked (saved run row) ≡ true) (grown : run.steps ≡ old ++ s ∷ [])
    (numbered : Numbered run.id 0 run.steps)
    (top : highest_index run.id w.db.agent_steps ≡ length old)
    (fresh : any (λ (r : AgentStepRow). r.id == s.id) w.db.agent_steps ≡ false) where
  -- The row of the run has the status, the instants, the outcome and the usage of the run.
  abbrev updated : World
  updated = record w {
    db = record w.db {
      agent_runs =
          update_where (is_run run.id)
            (λ (r : AgentRunRow). record r {
              status = run.status;
              started_at = run.started_at;
              finished_at = run.finished_at;
              failure_reason = run.failure_reason;
              final_response = run.final_response;
              usage_metadata = run.usage_metadata;
            })
            w.db.agent_runs;
    };
  }

  last : (s.run_id ≡ run.id) × (s.index ≡ suc (length old))
  last =
      let (owner, at) = Numbered-last run.id 0 old s (subst (Numbered run.id 0) grown numbered) in
      (owner, omega (arith, at))

  accepted : step_accepted (step_row s) updated.db ≡ true
  unfolding step_accepted
  accepted =
      let (owner, at) = last in
      let free = index_free run.id s.index w.db.agent_steps (omega (arith, top, at)) in
      let kept = run_kept run w.db.agent_runs row stored in
      rw (owner, fresh, free, kept) (ground (arith, at))

  to_write : new_steps (highest_index run.id w.db.agent_steps) run.steps ≡ s ∷ []
  to_write = rw grown (
      new_steps-last run.id (highest_index run.id w.db.agent_steps) 0 old s
        (subst (Numbered run.id 0) grown numbered) (omega (arith, top)))

  -- Saving a run with one step more than is stored updates its row and appends that step.
  pub save-appends : save run w ≡ (
    ok tt,
    record updated { db = record updated.db { agent_steps = w.db.agent_steps ++ step_row s ∷ [] } },
  )
  unfolding save update_run append_steps append_step
  save-appends = rw (stored, checked, to_write, accepted) refl
