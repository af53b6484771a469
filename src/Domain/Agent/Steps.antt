-- ===== src/Domain/Agent/Steps.antt =====
-- domain/agent/entities.py: what one recorded step does to a run's numbering and its budgets.
use nexabot.Prelude.{
  ℕ, suc, ◌+◌, ◌≤◌, ◌≡◌, refl, true, List, [], ◌∷◌, ◌++◌, arith, length, if◌then◌else◌,
}
use nexabot.Domain.Json.{Mapping}
use nexabot.Domain.Agent.{
  AgentRun, AgentStep, AgentStepType, is_terminal_step, is_tool_call, count_tool_calls,
  tool_call_count, record_step, with_step, next_step, is_running,
}
use nexabot.Exec.{ok}

-- The steps belong to run `id`, and their indices go on from `k` without a gap.
abbrev pub Numbered : ℕ → ℕ → List AgentStep → Type 0
Numbered id k [] = Unit {0}
Numbered id k (s ∷ steps) = (s.run_id ≡ id) × (s.index ≡ suc k) × Numbered id (suc k) steps

-- The steps that count against the step budget.
abbrev pub count_work : List AgentStep → ℕ
count_work [] = 0
count_work (s ∷ steps) =
    let rest = count_work steps in if is_terminal_step s.type then rest else suc rest

pub Numbered-append :
    (id k : ℕ) (steps : List AgentStep) (s : AgentStep)
    → Numbered id k steps
    → s.run_id ≡ id
    → s.index ≡ suc (k + length steps)
    → Numbered id k (steps ++ s ∷ [])
Numbered-append id k [] s h owner at = (owner, omega (arith, at), tt)
Numbered-append id k (t ∷ steps) s h owner at =
    (h.0, h.1, Numbered-append id (suc k) steps s h.2 owner (omega (arith, at)))

pub count_work-le-length : (steps : List AgentStep) → count_work steps ≤ length steps
count_work-le-length [] = omega arith
count_work-le-length (s ∷ steps) = ground (arith, count_work-le-length steps)

pub count_work-append :
    (steps : List AgentStep) (s : AgentStep)
    → count_work (steps ++ s ∷ []) ≡ count_work steps + (if is_terminal_step s.type then 0 else 1)
count_work-append [] s = ground arith
count_work-append (t ∷ steps) s = ground (arith, count_work-append steps s)

pub count_tool_calls-append :
    (steps : List AgentStep) (s : AgentStep)
    → count_tool_calls (steps ++ s ∷ [])
      ≡ count_tool_calls steps + (if is_tool_call s.type then 1 else 0)
unfolding count_tool_calls
count_tool_calls-append [] s = ground arith
count_tool_calls-append (t ∷ steps) s = ground (arith, count_tool_calls-append steps s)

-- The numbering and the budgets of a run.
pub record IsBudgeted (run : AgentRun) : Type 0 where
  pub numbered : Numbered run.id 0 run.steps
  pub work : count_work run.steps ≤ run.limits.max_steps
  pub tools : count_tool_calls run.steps ≤ run.limits.max_tool_calls

module _ (new_id now : ℕ) (type : AgentStepType) (metadata : Mapping) (run : AgentRun) where
  abbrev step : AgentStep
  step = next_step new_id now type metadata run

  -- A step that `record_step` accepts comes last, and the run was running.
  pub record_step-eq-ok :
      {run' : AgentRun}
      → record_step new_id now type metadata run ≡ ok run'
      → (run' ≡ with_step step run) × (is_running run.status ≡ true)
  unfolding record_step
  record_step-eq-ok h = ground arith

  with_step-work :
      {run' : AgentRun}
      → record_step new_id now type metadata run ≡ ok run'
      → IsBudgeted run
      → count_work (run.steps ++ step ∷ []) ≤ run.limits.max_steps
  unfolding record_step
  with_step-work h b =
      ground (arith, count_work-append run.steps step, count_work-le-length run.steps, b.work)

  with_step-tools :
      {run' : AgentRun}
      → record_step new_id now type metadata run ≡ ok run'
      → IsBudgeted run
      → count_tool_calls (run.steps ++ step ∷ []) ≤ run.limits.max_tool_calls
  unfolding record_step tool_call_count
  with_step-tools h b = ground (arith, count_tool_calls-append run.steps step, b.tools)

  pub record_step-IsBudgeted :
      {run' : AgentRun}
      → record_step new_id now type metadata run ≡ ok run'
      → IsBudgeted run
      → IsBudgeted run'
  record_step-IsBudgeted h b = rw (record_step-eq-ok h).0 (record {
    numbered = Numbered-append run.id 0 run.steps step b.numbered refl (omega arith);
    work = with_step-work h b;
    tools = with_step-tools h b;
  })
