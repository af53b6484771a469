-- ===== src/Domain/Agent/Lifecycle.antt =====
-- domain/agent/entities.py: the state machine of a run, as a step relation over its methods.
use nexabot.Prelude.{
  ℕ, ◌≡◌, refl, String, true, false, Option, none, some, arith, Bool-cases, inl, inr, is_some,
}
use mathlib.Core.Bool.{false≢true}
use nexabot.Domain.Json.{Json, Mapping, end, entry}
use nexabot.Domain.Agent.{
  AgentLimits, AgentRun, AgentRunStatus, pending, running, succeeded, failed, cancelled,
  AgentStepType, final_response, error, is_pending, is_running, new_run, start, record_step, finish,
  fail, count_tool_calls, next_step, with_step,
}
use nexabot.Domain.Agent.Steps.{IsBudgeted, record_step-IsBudgeted, record_step-eq-ok}
use nexabot.Exec.{ok}

-- One call of a method that did not raise.
pub data Move (r r' : AgentRun) : Type 0 where
  starts : (now : ℕ) → start now r ≡ ok r' → Move r r'
  steps :
      (new_id now : ℕ) (type : AgentStepType) (metadata : Mapping)
      → record_step new_id now type metadata r ≡ ok r'
      → Move r r'
  finishes :
      (new_id step_now now : ℕ) (response : String) (usage : Mapping)
      → finish new_id step_now now response usage r ≡ ok r'
      → Move r r'
  fails :
      (new_id step_now now : ℕ) (reason : String)
      → fail new_id step_now now reason r ≡ ok r'
      → Move r r'

-- The runs that the methods make of a new one.
pub data Reach : AgentRun → Type 0 where
  new :
      (id user_id conversation_id : ℕ) (provider model : String) (limits : AgentLimits)
      → Reach (new_run id user_id conversation_id provider model limits)
  next : {r r' : AgentRun} → Reach r → Move r r' → Reach r'

-- What a run of a status records: when it started and ended, why it failed, what it answered.
abbrev pub Records : AgentRunStatus → Option ℕ → Option ℕ → Option String → Option String → Type 0
Records pending started ended reason answer =
    (started ≡ none) × (ended ≡ none) × (reason ≡ none) × (answer ≡ none)
Records running started ended reason answer =
    (is_some started ≡ true) × (ended ≡ none) × (reason ≡ none) × (answer ≡ none)
Records succeeded started ended reason answer =
    (is_some started ≡ true) × (is_some ended ≡ true) × (reason ≡ none) × (is_some answer ≡ true)
Records failed started ended reason answer =
    (is_some ended ≡ true) × (is_some reason ≡ true) × (answer ≡ none)
Records cancelled started ended reason answer = ⊥

abbrev pub IsRecorded : AgentRun → Type 0
IsRecorded r = Records r.status r.started_at r.finished_at r.failure_reason r.final_response

pub record IsLegal (r : AgentRun) : Type 0 where
  pub budgeted : IsBudgeted r
  pub recorded : IsRecorded r

finish-eq-ok :
    (new_id step_now now : ℕ) (response : String) (usage : Mapping) (r : AgentRun) {r' : AgentRun}
    → finish new_id step_now now response usage r ≡ ok r'
    → (s : AgentRun) × (record_step new_id step_now final_response end r ≡ ok s)
      × (r' ≡ record s {
        status = succeeded;
        final_response = some response;
        usage_metadata = usage;
        finished_at = some now;
      })
unfolding finish
finish-eq-ok new_id step_now now response usage r h =
    (with_step (next_step new_id step_now final_response end r) r, ground arith, ground arith)

fail-eq-ok_running :
    (new_id step_now now : ℕ) (reason : String) (r : AgentRun) {r' : AgentRun}
    → fail new_id step_now now reason r ≡ ok r'
    → is_running r.status ≡ true
    → (s : AgentRun) × (record_step new_id step_now error (entry "reason" (Json.str reason) end) r
        ≡ ok s)
      × (r' ≡ record s { status = failed; failure_reason = some reason; finished_at = some now })
unfolding fail
fail-eq-ok_running new_id step_now now reason r h live = (
  with_step (next_step new_id step_now error (entry "reason" (Json.str reason) end) r) r,
  ground arith,
  ground arith,
)

fail-eq-ok_pending :
    (new_id step_now now : ℕ) (reason : String) (r : AgentRun) {r' : AgentRun}
    → fail new_id step_now now reason r ≡ ok r'
    → is_running r.status ≡ false
    → (r.status ≡ pending)
      × (r' ≡ record r { status = failed; failure_reason = some reason; finished_at = some now })
unfolding fail
fail-eq-ok_pending new_id step_now now reason r h idle = ground arith

module _ (started ended : Option ℕ) (reason answer : Option String) where
  as_running :
      (s : AgentRunStatus)
      → is_running s ≡ true
      → Records s started ended reason answer
      → Records running started ended reason answer
  as_running running h c = c
  as_running _ h c = absurd (false≢true h)

  as_pending :
      (s : AgentRunStatus)
      → is_pending s ≡ true
      → Records s started ended reason answer
      → Records pending started ended reason answer
  as_pending pending h c = c
  as_pending _ h c = absurd (false≢true h)

start-eq-ok :
    (now : ℕ) (r : AgentRun) {r' : AgentRun}
    → start now r ≡ ok r'
    → (r' ≡ record r { status = running; started_at = some now }) × (is_pending r.status ≡ true)
unfolding start
start-eq-ok now r h = ground arith

new_run-IsLegal :
    (id user_id conversation_id : ℕ) (provider model : String) (limits : AgentLimits)
    → IsLegal (new_run id user_id conversation_id provider model limits)
unfolding new_run count_tool_calls
new_run-IsLegal id user_id conversation_id provider model limits = record {
  budgeted = record { numbered = tt; work = omega arith; tools = omega arith };
  recorded = (refl, refl, refl, refl);
}

was_running :
    {r : AgentRun}
    → IsLegal r
    → is_running r.status ≡ true
    → Records running r.started_at r.finished_at r.failure_reason r.final_response
was_running {r} l live = as_running _ _ _ _ r.status live l.recorded

module _ {r r' : AgentRun} (l : IsLegal r) where
  start-IsLegal : (now : ℕ) → start now r ≡ ok r' → IsLegal r'
  start-IsLegal now h =
      let (made, idle) = start-eq-ok now r h in
      let was =
        as_pending r.started_at r.finished_at r.failure_reason r.final_response r.status idle
          l.recorded in
      rw made (record {
        budgeted = record {
          numbered = l.budgeted.numbered;
          work = l.budgeted.work;
          tools = l.budgeted.tools;
        };
        recorded = (refl, was.1, was.2, was.3);
      })

  record_step-IsLegal :
      (new_id now : ℕ) (type : AgentStepType) (metadata : Mapping)
      → record_step new_id now type metadata r ≡ ok r'
      → IsLegal r'
  record_step-IsLegal new_id now type metadata h =
      let (made, live) = record_step-eq-ok new_id now type metadata r h in
      record {
        budgeted = record_step-IsBudgeted new_id now type metadata r h l.budgeted;
        recorded = rw made l.recorded;
      }

  finish-IsLegal :
      (new_id step_now now : ℕ) (response : String) (usage : Mapping)
      → finish new_id step_now now response usage r ≡ ok r'
      → IsLegal r'
  finish-IsLegal new_id step_now now response usage h =
      let (s, stepped, made) = finish-eq-ok new_id step_now now response usage r h in
      let (same, live) = record_step-eq-ok new_id step_now final_response end r stepped in
      let b = record_step-IsBudgeted new_id step_now final_response end r stepped l.budgeted in
      let was = was_running l live in
      rw made (record {
        budgeted = record { numbered = b.numbered; work = b.work; tools = b.tools };
        recorded = (rw same was.0, refl, rw same was.2, refl);
      })

  fail-IsLegal :
      (new_id step_now now : ℕ) (reason : String)
      → fail new_id step_now now reason r ≡ ok r'
      → IsLegal r'
  fail-IsLegal new_id step_now now reason h = elim (Bool-cases (is_running r.status)) [
    | inl live ↦
        let (s, stepped, made) = fail-eq-ok_running new_id step_now now reason r h live in
        let meta = entry "reason" (Json.str reason) end in
        let (same, _) = record_step-eq-ok new_id step_now error meta r stepped in
        let b = record_step-IsBudgeted new_id step_now error meta r stepped l.budgeted in
        rw made (record {
          budgeted = record { numbered = b.numbered; work = b.work; tools = b.tools };
          recorded = (refl, refl, rw same (was_running l live).3);
        })
    | inr idle ↦
        let (was, made) = fail-eq-ok_pending new_id step_now now reason r h idle in
        rw made (record {
          budgeted = record {
            numbered = l.budgeted.numbered;
            work = l.budgeted.work;
            tools = l.budgeted.tools;
          };
          recorded = (
            refl,
            refl,
            (as_pending r.started_at r.finished_at r.failure_reason r.final_response r.status
                (rw was refl) l.recorded).3,
          );
        })
  ]

Move-IsLegal : {r r' : AgentRun} → Move r r' → IsLegal r → IsLegal r'
Move-IsLegal (starts now h) l = start-IsLegal l now h
Move-IsLegal (steps new_id now type metadata h) l = record_step-IsLegal l new_id now type metadata h
Move-IsLegal (finishes new_id step_now now response usage h) l =
    finish-IsLegal l new_id step_now now response usage h
Move-IsLegal (fails new_id step_now now reason h) l = fail-IsLegal l new_id step_now now reason h

-- Every run that the methods can make of a new one is legal: its steps are numbered from 1
-- without a gap and belong to it, the steps other than the closing one are within `max_steps` and
-- the tool calls within `max_tool_calls`, it records when it started and ended, its answer or its
-- reason just as its status asks, and it is never `cancelled`.
pub Reach-IsLegal : {r : AgentRun} → Reach r → IsLegal r
Reach-IsLegal (new id user_id conversation_id provider model limits) =
    new_run-IsLegal id user_id conversation_id provider model limits
Reach-IsLegal (next reached move) = Move-IsLegal move (Reach-IsLegal reached)
