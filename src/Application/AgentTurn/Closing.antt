-- ===== src/Application/AgentTurn/Closing.antt =====
-- application/agent/use_cases.py: what each part of the end of a turn does when nothing fails.
use nexabot.Prelude.{
  ℕ, ◌≡◌, refl, ap, ◌∙◌, sym, String, true, false, Option, none, some, List, [], ◌∷◌, ◌++◌, arith,
  length, select, ◌==◌, leb, is_empty, strip, strip-strip,
}
use nexabot.Domain.Json.{Mapping, end}
use nexabot.Domain.Agent.{
  AgentRun, running, succeeded, validation, final_response, record_step, finish, next_step,
  with_step,
}
use nexabot.Domain.Agent.Steps.{Numbered, Numbered-append}
use nexabot.Domain.Conversations.{Conversation, Message, MessageRole, active, widen}
use nexabot.Domain.Conversations as Entity
use nexabot.Ports.Gateway.{LlmResponse}
use nexabot.Ports.Repositories.{completed}
use nexabot.Database.Tables.{AgentRunRow, IdempotencyRow, run_checked, limits_positive}
use nexabot.Database.World.{World}
use nexabot.Database.Idempotency
use nexabot.Database.Idempotency.Statements.{settles, settle_row}
use nexabot.Database.AgentRuns.{saved}
use nexabot.Application.AgentTurn.Command.{idempotency_namespace, Claim, AgentTurnResult}
use nexabot.Application.AgentTurn.Stored.{result_to_stored}
use nexabot.Application.AgentTurn.Finish.{Attempt, on_run, complete_if_any}
use nexabot.Application.AgentTurn.Request.{or_blank, validate_response}
use nexabot.Exec.{Exec, Result, ok, ◌>>=◌}

-- The claim, if there is one, still stands: one row has its key and its token and is started.
abbrev pub IsHeld : Option Claim → List IdempotencyRow → Type 0
IsHeld none rows = Unit {0}
IsHeld (some claim) rows =
    (length (select (settles idempotency_namespace claim.key claim.token) rows) == 1) ≡ true

abbrev pub settled_rows : Option Claim → AgentTurnResult → List IdempotencyRow → List IdempotencyRow
settled_rows none result rows = rows
settled_rows (some claim) result rows =
    (settle_row idempotency_namespace claim.key claim.token completed (result_to_stored result)
      rows).1

pub completes :
    (claim : Option Claim) (result : AgentTurnResult) (u : World)
    → IsHeld claim u.db.idempotency_records
    → complete_if_any claim result u ≡ (
      ok tt,
      record u {
        db = record u.db {
          idempotency_records = settled_rows claim result u.db.idempotency_records;
        };
      },
    )
unfolding Idempotency.complete Idempotency.settle settle_row
completes none result u held = refl
completes (some claim) result u held = rw held refl

-- The assistant's message, and the conversation with it.
abbrev pub spoken : ℕ → ℕ → String → Mapping → Conversation → Message
spoken id created content metadata c = record {
  id = id;
  conversation_id = c.id;
  role = MessageRole.assistant;
  content = content;
  metadata = metadata;
  created_at = created;
}

abbrev pub with_spoken : ℕ → ℕ → ℕ → String → Mapping → Conversation → Conversation
with_spoken id created updated content metadata c = record c {
  messages = c.messages ++ spoken id created content metadata c ∷ [];
  history_window = widen c.history_window;
  updated_at = updated;
}

pub speaks :
    (id created updated : ℕ) (content : String) (metadata : Mapping) (c : Conversation)
    → c.status ≡ active
    → is_empty (strip content) ≡ false
    → Entity.append_message id created updated MessageRole.assistant content metadata c
      ≡ ok (spoken id created content metadata c, with_spoken id created updated content metadata c)
unfolding Entity.append_message
speaks id created updated content metadata c live full = rw (live, full) refl

-- The run with its two closing steps.
abbrev pub validated : ℕ → ℕ → AgentRun → AgentRun
validated id at run = with_step (next_step id at validation end run) run

abbrev pub answered_run : ℕ → ℕ → ℕ → ℕ → ℕ → String → Mapping → AgentRun → AgentRun
answered_run id at id' at' now content usage run =
    record (with_step (next_step id' at' final_response end (validated id at run))
      (validated id at run)) {
        status = succeeded;
        final_response = some content;
        usage_metadata = usage;
        finished_at = some now;
      }

pub validates :
    (id at : ℕ) (run : AgentRun)
    → run.status ≡ running
    → leb run.limits.max_steps (length run.steps) ≡ false
    → record_step id at validation end run ≡ ok (validated id at run)
unfolding record_step
validates id at run live room = rw (live, room) refl

pub finishes :
    (id at id' at' now : ℕ) (content : String) (usage : Mapping) (run : AgentRun)
    → run.status ≡ running
    → is_empty (strip content) ≡ false
    → finish id' at' now content usage (validated id at run)
      ≡ ok (answered_run id at id' at' now content usage run)
unfolding finish
finishes id at id' at' now content usage run live full = rw (live, full) refl

pub answered-Numbered :
    (id at id' at' now : ℕ) (content : String) (usage : Mapping) (run : AgentRun)
    → Numbered run.id 0 run.steps
    → Numbered run.id 0 (answered_run id at id' at' now content usage run).steps
answered-Numbered id at id' at' now content usage run numbered =
    Numbered-append run.id 0 (validated id at run).steps
      (next_step id' at' final_response end (validated id at run))
      (Numbered-append run.id 0 run.steps (next_step id at validation end run) numbered refl
        (omega arith))
      refl (omega arith)

pub answered-checked :
    (id at id' at' now : ℕ) (content : String) (usage : Mapping) (run : AgentRun)
    (row : AgentRunRow)
    → limits_positive row.limits ≡ true
    → run_checked (saved (answered_run id at id' at' now content usage run) row) ≡ true
unfolding run_checked
answered-checked id at id' at' now content usage run row h = ground arith

pub on_run-accepts :
    (method : AgentRun → Result AgentRun) (a : Attempt) (r : AgentRun)
    → method a.run ≡ ok r
    → on_run method a ≡ (ok tt, record a { run = r })
on_run-accepts method a r h = rw (on_run, h) refl

pub on_run-continues :
    (method : AgentRun → Result AgentRun) (f : Unit → Exec Attempt Unit) (a : Attempt)
    (r : AgentRun)
    → method a.run ≡ ok r
    → (on_run method >>= f) a ≡ f tt (record a { run = r })
on_run-continues method f a r h = rw (on_run, h) refl

accepted_parts :
    (response : LlmResponse) (content : String)
    → validate_response response ≡ ok content
    → (strip (or_blank response.content) ≡ content)
      × (is_empty (strip (or_blank response.content)) ≡ false)
unfolding validate_response
accepted_parts response content h = ground arith

-- A content that was accepted is not blank.
pub accepted-written :
    (response : LlmResponse) (content : String)
    → validate_response response ≡ ok content
    → (is_empty content ≡ false) × (is_empty (strip content) ≡ false)
accepted-written response content h =
    let (same, full) = accepted_parts response content h in
    (
      ap is_empty (sym same) ∙ full,
      ap (λ x. is_empty (strip x)) (sym same)
          ∙ ap is_empty (strip-strip (or_blank response.content))
          ∙ full,
    )
