-- ===== src/Database/AgentRuns/Reading.antt =====
-- infrastructure/database/repositories/agent.py: a run that was added is read back as it was.
use nexabot.Prelude.{
  ℕ, suc, ◌≡◌, refl, sym, ap, ◌∙◌, Bool, true, false, ◌==◌, some, List, [], ◌∷◌, ◌++◌, arith, any,
  find, find-append_none, select, map,
}
use mathlib.Core.List.{append-nil, append_assoc}
use nexabot.Prelude.Unique.{find-none-any}
use nexabot.Domain.Agent.{AgentLimits, AgentRun, AgentStep, make_limits}
use nexabot.Domain.Agent.Steps.{Numbered}
use nexabot.Database.Tables.{
  MessageRow, AgentRunRow, AgentStepRow, is_run, limits_positive, run_checked, run_accepted,
}
use nexabot.Database.World.{World}
use nexabot.Database.AgentRuns.{
  step_row, step_of, append_step, append_steps, row_of, insert_run, add, insert_by_index, by_index,
  load_steps, load_limits, to_domain, load_run, get,
}
use nexabot.Exec.{ok, >>=-eq-ok}

abbrev pub of_run : ℕ → AgentStepRow → Bool
of_run run_id r = r.run_id == run_id

select_none :
    (id : ℕ) (rows more : List AgentStepRow)
    → any (of_run id) rows ≡ false
    → select (of_run id) (rows ++ more) ≡ select (of_run id) more
select_none id [] more h = refl
select_none id (r ∷ rows) more h = ground (arith, select_none id rows more)

select_own :
    (id k : ℕ) (steps : List AgentStep)
    → Numbered id k steps
    → select (of_run id) (map step_row steps) ≡ map step_row steps
select_own id k [] h = refl
select_own id k (s ∷ steps) h = ground (arith, h.0, select_own id (suc k) steps h.2)

insert_first :
    (id k : ℕ) (r : AgentStepRow) (steps : List AgentStep)
    → Numbered id k steps
    → r.index ≡ k
    → insert_by_index r (map step_row steps) ≡ r ∷ map step_row steps
unfolding insert_by_index
insert_first id k r [] h e = refl
insert_first id k r (s ∷ steps) h e = ground (arith, h.1)

by_index-Numbered :
    (id k : ℕ) (steps : List AgentStep)
    → Numbered id k steps
    → by_index (map step_row steps) ≡ map step_row steps
unfolding by_index
by_index-Numbered id k [] h = refl
by_index-Numbered id k (s ∷ steps) h =
    ap (insert_by_index (step_row s)) (by_index-Numbered id (suc k) steps h.2)
    ∙ insert_first id (suc k) (step_row s) steps h.2 h.1

step_of-step_row : (steps : List AgentStep) → map step_of (map step_row steps) ≡ steps
step_of-step_row [] = refl
step_of-step_row (s ∷ steps) = ap (λ l. s ∷ l) (step_of-step_row steps)

load_steps-own :
    (id : ℕ) (rows : List AgentStepRow) (steps : List AgentStep)
    → any (of_run id) rows ≡ false
    → Numbered id 0 steps
    → load_steps id (rows ++ map step_row steps) ≡ steps
unfolding load_steps
load_steps-own id rows steps free numbered =
    ap (λ l. map step_of (by_index l))
      (select_none id rows (map step_row steps) free ∙ select_own id 0 steps numbered)
    ∙ ap (map step_of) (by_index-Numbered id 0 steps numbered)
    ∙ step_of-step_row steps

load_limits_checked : (l : AgentLimits) → limits_positive l ≡ true → load_limits l ≡ ok l
unfolding load_limits make_limits limits_positive
load_limits_checked l h = ground arith

append_step-eq-ok :
    (s : AgentStep) (w w' : World)
    → append_step s w ≡ (ok tt, w')
    → w' ≡ record w { db = record w.db { agent_steps = w.db.agent_steps ++ step_row s ∷ [] } }
unfolding append_step
append_step-eq-ok s w w' h = ground arith

pub append_steps-eq-ok :
    (steps : List AgentStep) (w w' : World)
    → append_steps steps w ≡ (ok tt, w')
    → (w'.db.agent_runs ≡ w.db.agent_runs)
      × (w'.db.agent_steps ≡ w.db.agent_steps ++ map step_row steps)
      × (w'.db.messages ≡ w.db.messages)
unfolding append_steps
append_steps-eq-ok [] w w' h = (
  ap (λ p. p.1.db.agent_runs) (sym h),
  ap (λ p. p.1.db.agent_steps) (sym h) ∙ sym (append-nil w.db.agent_steps),
  ap (λ p. p.1.db.messages) (sym h),
)
append_steps-eq-ok (s ∷ steps) w w' h =
    let (_, first, rest) = >>=-eq-ok (append_step s) (λ _. append_steps steps) w h in
    let (runs, more, still) = append_steps-eq-ok steps (append_step s w).1 w' rest in
    let one = append_step-eq-ok s w (append_step s w).1 first in
    (
      runs ∙ ap (λ (u : World). u.db.agent_runs) one,
      more
          ∙ ap (λ (u : World). u.db.agent_steps ++ map step_row steps) one
          ∙ append_assoc w.db.agent_steps (step_row s ∷ []) (map step_row steps),
      still ∙ ap (λ (u : World). u.db.messages) one,
    )

insert_run-eq-ok :
    (row : AgentRunRow) (w w' : World)
    → insert_run row w ≡ (ok tt, w')
    → (limits_positive row.limits ≡ true)
      × (any (is_run row.id) w.db.agent_runs ≡ false)
      × (w' ≡ record w { db = record w.db { agent_runs = w.db.agent_runs ++ row ∷ [] } })
unfolding insert_run run_accepted run_checked
insert_run-eq-ok row w w' h = (ground arith, ground arith, ground arith)

found_last :
    (rows : List AgentRunRow) (row : AgentRunRow)
    → any (is_run row.id) rows ≡ false
    → find (is_run row.id) (rows ++ row ∷ []) ≡ some row
found_last rows row free =
    find-append_none (is_run row.id) rows (row ∷ []) (find-none-any (is_run row.id) rows free)
    ∙ ground arith

-- The tables of the messages, the runs and the steps.
abbrev pub tables : World → List MessageRow × List AgentRunRow × List AgentStepRow
tables w = (w.db.messages, w.db.agent_runs, w.db.agent_steps)

-- A run that was added stands behind the others, and so do its steps.
pub add-tables :
    (run : AgentRun) (w w' : World)
    → add run w ≡ (ok tt, w')
    → tables w' ≡ (
      w.db.messages,
      w.db.agent_runs ++ row_of run ∷ [],
      w.db.agent_steps ++ map step_row run.steps,
    )
unfolding add
add-tables run w w' h =
    let (_, first, rest) = >>=-eq-ok (insert_run (row_of run)) (λ _. append_steps run.steps) w h in
    let (_, _, one) = insert_run-eq-ok (row_of run) w (insert_run (row_of run) w).1 first in
    let (runs, steps, still) = append_steps-eq-ok run.steps (insert_run (row_of run) w).1 w' rest in
    cc (
      still ∙ ap (λ (u : World). u.db.messages) one,
      runs ∙ ap (λ (u : World). u.db.agent_runs) one,
      steps ∙ ap (λ (u : World). u.db.agent_steps ++ map step_row run.steps) one,
    )

-- A run whose steps are numbered, and of which no step is stored yet, is read back after it was
-- added exactly as it was, every step and every field.
pub add-get :
    (run : AgentRun) (w w' : World)
    → Numbered run.id 0 run.steps
    → any (of_run run.id) w.db.agent_steps ≡ false
    → add run w ≡ (ok tt, w')
    → get run.id w' ≡ (ok (some run), w')
unfolding add get to_domain row_of
add-get run w w' numbered free h =
    let (_, first, rest) = >>=-eq-ok (insert_run (row_of run)) (λ _. append_steps run.steps) w h in
    let (positive, fresh, one) =
      insert_run-eq-ok (row_of run) w (insert_run (row_of run) w).1 first in
    let (runs, steps, _) = append_steps-eq-ok run.steps (insert_run (row_of run) w).1 w' rest in
    let same_runs = runs ∙ ap (λ (u : World). u.db.agent_runs) one in
    let same_steps = steps ∙ ap (λ (u : World). u.db.agent_steps ++ map step_row run.steps) one in
    let found =
      ap (find (is_run run.id)) same_runs ∙ found_last w.db.agent_runs (row_of run) fresh in
    let loaded =
      ap (load_steps run.id) same_steps
      ∙ load_steps-own run.id w.db.agent_steps run.steps free numbered in
    ap (λ o. (load_run o w'.db, w')) found
    ∙ rw (loaded, load_limits_checked run.limits positive) refl
