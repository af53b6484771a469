-- ===== src/Database/AgentRuns/Finishing.antt =====
-- infrastructure/database/repositories/agent.py: saving a run that has two steps more than are stored.
use nexabot.Prelude.{
  ℕ, suc, ◌+◌, ◌≤◌, ◌≡◌, refl, subst, true, false, some, List, [], ◌∷◌, ◌++◌, arith, any, find,
  update_where, length, ◌==◌, Bool,
}
use nexabot.Domain.Agent.{AgentRun, AgentStep}
use nexabot.Domain.Agent.Steps.{Numbered}
use nexabot.Database.Tables.{
  AgentRunRow, AgentStepRow, is_run, is_step_at, run_checked, step_accepted,
}
use nexabot.Database.World.{World}
use nexabot.Database.AgentRuns.{
  step_row, append_step, append_steps, saved, highest_index, new_steps, update_run, save,
}
use nexabot.Database.AgentRuns.Saving.{index_free, run_kept}
use nexabot.Exec.{ok}

any-append :
    (p : AgentStepRow → Bool) (rows : List AgentStepRow) (r : AgentStepRow)
    → any p rows ≡ false
    → p r ≡ false
    → any p (rows ++ r ∷ []) ≡ false
any-append p [] r h hr = rw hr refl
any-append p (x ∷ rows) r h hr = ground (arith, any-append p rows r)

-- Steps that are numbered on from the highest index are all new, and those before it are not.
new_steps-all :
    (id highest k : ℕ) (steps : List AgentStep)
    → Numbered id k steps
    → highest ≤ k
    → new_steps highest steps ≡ steps
unfolding new_steps
new_steps-all id highest k [] numbered h = refl
new_steps-all id highest k (s ∷ steps) numbered h =
    let rest = new_steps-all id highest (suc k) steps numbered.2 (omega (arith, h)) in
    ground (arith, numbered.1)

new_steps-append :
    (id highest k : ℕ) (old new : List AgentStep)
    → Numbered id k (old ++ new)
    → highest ≡ k + length old
    → new_steps highest (old ++ new) ≡ new
unfolding new_steps
new_steps-append id highest k [] new numbered h =
    new_steps-all id highest k new numbered (omega (arith, h))
new_steps-append id highest k (t ∷ old) new numbered h =
    let rest = new_steps-append id highest (suc k) old new numbered.2 (omega (arith, h)) in
    ground (arith, numbered.1)

Numbered-drop :
    (id k : ℕ) (old new : List AgentStep)
    → Numbered id k (old ++ new)
    → Numbered id (k + length old) new
Numbered-drop id k [] new numbered =
    let e : k ≡ k + 0 = omega arith in subst (λ n. Numbered id n new) e numbered
Numbered-drop id k (t ∷ old) new numbered =
    let e : suc k + length old ≡ k + suc (length old) = omega arith in
    subst (λ n. Numbered id n new) e (Numbered-drop id (suc k) old new numbered.2)

module _ (run : AgentRun) (row : AgentRunRow) (old : List AgentStep) (s t : AgentStep) (w : World)
    (stored : find (is_run run.id) w.db.agent_runs ≡ some row)
    (checked : run_checked (saved run row) ≡ true) (grown : run.steps ≡ old ++ s ∷ t ∷ [])
    (numbered : Numbered run.id 0 run.steps)
    (top : highest_index run.id w.db.agent_steps ≡ length old)
    (fresh : any (λ (r : AgentStepRow). r.id == s.id) w.db.agent_steps ≡ false)
    (fresh_too : any (λ (r : AgentStepRow). r.id == t.id) w.db.agent_steps ≡ false)
    (apart : s.id == t.id ≡ false) where
  abbrev updated : World
  updated = record w {
    db = record w.db { agent_runs = update_where (is_run run.id) (saved run) w.db.agent_runs };
  }

  abbrev with_first : World
  with_first = record updated {
    db = record updated.db { agent_steps = w.db.agent_steps ++ step_row s ∷ [] };
  }

  last_two : Numbered run.id (length old) (s ∷ t ∷ [])
  last_two =
      let e : 0 + length old ≡ length old = omega arith in
      subst (λ n. Numbered run.id n (s ∷ t ∷ [])) e
        (Numbered-drop run.id 0 old (s ∷ t ∷ []) (subst (Numbered run.id 0) grown numbered))

  first_accepted : step_accepted (step_row s) updated.db ≡ true
  unfolding step_accepted
  first_accepted =
      let free = index_free run.id s.index w.db.agent_steps (omega (arith, top, last_two.1)) in
      let kept = run_kept run w.db.agent_runs row stored in
      rw (last_two.0, fresh, free, kept) (ground (arith, last_two.1))

  second_accepted : step_accepted (step_row t) with_first.db ≡ true
  unfolding step_accepted
  second_accepted =
      let (owner, at, (owner_too, at_too, nothing)) = last_two in
      let free = index_free run.id t.index w.db.agent_steps (omega (arith, top, at, at_too)) in
      let other : is_step_at run.id t.index (step_row s) ≡ false = ground (arith, at, at_too) in
      let free_too =
        any-append (is_step_at run.id t.index) w.db.agent_steps (step_row s) free other in
      let new_id =
        any-append (λ (r : AgentStepRow). r.id == t.id) w.db.agent_steps (step_row s) fresh_too
          apart in
      let kept = run_kept run w.db.agent_runs row stored in
      rw (owner_too, new_id, free_too, kept) (ground (arith, at_too))

  to_write : new_steps (highest_index run.id w.db.agent_steps) run.steps ≡ s ∷ t ∷ []
  to_write = rw grown (
      new_steps-append run.id (highest_index run.id w.db.agent_steps) 0 old (s ∷ t ∷ [])
        (subst (Numbered run.id 0) grown numbered) (omega (arith, top)))

  -- Saving a run with two steps more than are stored updates its row and appends both.
  pub save-appends_two : save run w ≡ (
    ok tt,
    record updated {
      db = record updated.db {
        agent_steps = (w.db.agent_steps ++ step_row s ∷ []) ++ step_row t ∷ [];
      };
    },
  )
  unfolding save update_run append_steps append_step
  save-appends_two = rw (stored, checked, to_write, first_accepted, second_accepted) refl
