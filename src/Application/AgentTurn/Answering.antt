-- ===== src/Application/AgentTurn/Answering.antt =====
-- application/agent/use_cases.py: a turn that the provider answers in time returns its answer.
use nexabot.Prelude.{
  ℕ, ◌+◌, ◌≡◌, refl, ap, ◌∙◌, String, true, false, Option, none, some, [], ◌∷◌, ◌++◌, any, find,
  length, update_where, ◌==◌, leb, is_empty, strip, ltb,
}
use mathlib.Core.List.{append_assoc}
use nexabot.Prelude.Int.{to_ℕ, not_positive}
use nexabot.Domain.Json.{end}
use nexabot.Domain.Agent.{
  AgentRun, AgentStep, AgentLimits, running, validation, final_response, record_step, finish,
  next_step,
}
use nexabot.Domain.Agent.Steps.{Numbered}
use nexabot.Domain.Conversations.{Conversation, Message, MessageRole, active, widen}
use nexabot.Domain.Conversations as Entity
use nexabot.Ports.Gateway.{LlmRequest, LlmResponse, responds}
use nexabot.Database.Tables.{
  AgentRunRow, AgentStepRow, Db, is_run, is_message, is_conversation, limits_positive,
  message_accepted,
}
use nexabot.Database.World.{World, utc_now, uuid4}
use nexabot.Database.UnitOfWork.{enter, commit, exit, transaction}
use nexabot.Database.Conversations
use nexabot.Database.AgentRuns
use nexabot.Database.AgentRuns.{step_row, saved, highest_index}
use nexabot.Database.AgentRuns.Finishing.{save-appends_two}
use nexabot.Application.AgentTurn.Command.{
  validate_input, RunAgentTurnCommand, Claim, AgentTurnResult,
}
use nexabot.Application.AgentTurn.Finish.{
  Attempt, append_message, usage_metadata_of, append_assistant_message, finish_run, result_of,
  persist_body, finish_turn,
}
use nexabot.Application.AgentTurn.Authority.{IsAuthorized, start_turn-IsAuthorized}
use nexabot.Application.AgentTurn.Request.{build_request, validate_response}
use nexabot.Application.AgentTurn.Phases.{start_turn, call_model, send, within, remaining}
use nexabot.Application.AgentTurn.Execute.{attempt, run_claimed, execute, run_started}
use nexabot.Exec.{ok}
use nexabot.Application.AgentTurn.Closing.{
  IsHeld, settled_rows, completes, spoken, with_spoken, validated, answered_run, answered-Numbered,
  answered-checked, validates, finishes, on_run-accepts, on_run-continues, accepted-written,
}
use nexabot.Application.AgentTurn.Answered.{message_row}
use nexabot.Application.AgentTurn.Granting.{Grants, dispatches}

-- What the request of the provider leaves behind.
abbrev pub asked : LlmRequest → World → World
asked request w = record w { reads = w.reads + 1; sent = w.sent ++ request ∷ [] }

module _ (prompt : String) (command : RunAgentTurnCommand) (text : String) (claim : Option Claim)
    (conversation : Conversation) (run : AgentRun) (asking starting now : World)
    (request : LlmRequest) (response : LlmResponse) (after : ℕ) (content : String)
    (row : AgentRunRow) (valid : validate_input command ≡ ok text)
    (granted : Grants command.idempotency_key claim asking starting)
    (begun : start_turn command text starting ≡ (ok (conversation, run), now))
    (budget : leb command.limits.max_steps 2 ≡ false)
    (prompted : build_request prompt command conversation ≡ ok request)
    (in_time : not_positive (remaining (now.host.clock now.reads) run) ≡ false)
    (responded : now.host.complete (length now.sent) request ≡ responds after response)
    (soon : ltb after (to_ℕ (remaining (now.host.clock now.reads) run)) ≡ true)
    (accepted : validate_response response ≡ ok content)
    (stored : find (is_run run.id) (enter (asked request now)).db.agent_runs ≡ some row)
    (positive : limits_positive row.limits ≡ true)
    (top : highest_index run.id (enter (asked request now)).db.agent_steps ≡ length run.steps)
    (known : any (is_conversation conversation.id) (enter (asked request now)).db.conversations
      ≡ true)
    (fresh_message : any
        (is_message (now.host.uuid now.drawn))
        (enter (asked request now)).db.messages
      ≡ false)
    (fresh : any
        (λ (r : AgentStepRow). r.id == now.host.uuid (now.drawn + 1))
        (enter (asked request now)).db.agent_steps
      ≡ false)
    (fresh_too : any
        (λ (r : AgentStepRow). r.id == now.host.uuid (now.drawn + 1 + 1))
        (enter (asked request now)).db.agent_steps
      ≡ false)
    (apart : now.host.uuid (now.drawn + 1) == now.host.uuid (now.drawn + 1 + 1) ≡ false)
    (held : IsHeld claim (enter (asked request now)).db.idempotency_records)
    (quiet : now.host.commit_fault (now.begun + 1) ≡ none) where
  abbrev w : World
  w = asked request now

  authorized : IsAuthorized command text (enter starting) now conversation run
  authorized = start_turn-IsAuthorized command text starting now conversation run begun

  active_conversation : conversation.status ≡ active
  active_conversation = let (_, _, _, _, _, still) = authorized.asked in still

  live : run.status ≡ running
  live = authorized.started

  room : leb run.limits.max_steps (length run.steps) ≡ false
  room =
      ap (λ (l : AgentLimits). leb l.max_steps (length run.steps)) authorized.planned.0
      ∙ ap (leb command.limits.max_steps) authorized.planned.1
      ∙ budget

  numbered : Numbered run.id 0 run.steps
  numbered = authorized.planned.2

  written : is_empty content ≡ false
  written = (accepted-written response content accepted).0

  full : is_empty (strip content) ≡ false
  full = (accepted-written response content accepted).1

  abbrev message : Message
  message =
      spoken (w.host.uuid w.drawn) (w.host.clock w.reads) content response.provider_metadata
        conversation

  abbrev ended : AgentRun
  ended =
      answered_run (w.host.uuid (w.drawn + 1)) (w.host.clock (w.reads + 1 + 1))
        (w.host.uuid (w.drawn + 1 + 1)) (w.host.clock (w.reads + 1 + 1 + 1))
        (w.host.clock (w.reads + 1 + 1 + 1 + 1)) content (usage_metadata_of response.usage) run

  -- The world in which the answer is stored.
  abbrev ready : World
  ready = record w { reads = w.reads + 1 + 1 + 1 + 1 + 1; drawn = w.drawn + 1 + 1 + 1 }

  abbrev talked : Conversation
  talked =
      with_spoken (w.host.uuid w.drawn) (w.host.clock w.reads) (w.host.clock (w.reads + 1)) content
        response.provider_metadata conversation

  abbrev pub answer : AgentTurnResult
  answer = result_of ended talked message content (usage_metadata_of response.usage)

  abbrev validation_step : AgentStep
  validation_step =
      next_step (w.host.uuid (w.drawn + 1)) (w.host.clock (w.reads + 1 + 1)) validation end run

  abbrev final_step : AgentStep
  final_step =
      next_step (w.host.uuid (w.drawn + 1 + 1)) (w.host.clock (w.reads + 1 + 1 + 1)) final_response
        end (validated (w.host.uuid (w.drawn + 1)) (w.host.clock (w.reads + 1 + 1)) run)

  abbrev said_db : Db
  said_db = record (enter w).db { messages = (enter w).db.messages ++ message_row message ∷ [] }

  -- What the turn does to the database.
  abbrev pub answered_db : Db
  answered_db = record (enter w).db {
    messages = (enter w).db.messages ++ message_row message ∷ [];
    agent_runs = update_where (is_run run.id) (saved ended) (enter w).db.agent_runs;
    agent_steps =
        ((enter w).db.agent_steps ++ step_row validation_step ∷ []) ++ step_row final_step ∷ [];
    idempotency_records = settled_rows claim answer (enter w).db.idempotency_records;
  }

  said :
      Conversations.append_message message (enter ready)
      ≡ (ok tt, record (enter ready) { db = said_db })
  unfolding Conversations.append_message message_accepted enter
  said = rw (written, fresh_message, known) refl

  saves : AgentRuns.save ended (record (enter ready) { db = said_db }) ≡ (
    ok tt,
    record (enter ready) {
      db = record answered_db { idempotency_records = (enter w).db.idempotency_records };
    },
  )
  unfolding enter
  saves =
      save-appends_two ended row run.steps validation_step final_step
        (record (enter ready) { db = said_db }) stored
        (answered-checked (w.host.uuid (w.drawn + 1)) (w.host.clock (w.reads + 1 + 1))
          (w.host.uuid (w.drawn + 1 + 1)) (w.host.clock (w.reads + 1 + 1 + 1))
          (w.host.clock (w.reads + 1 + 1 + 1 + 1)) content (usage_metadata_of response.usage) run
          row positive)
        (append_assoc run.steps (validation_step ∷ []) (final_step ∷ []))
        (answered-Numbered (w.host.uuid (w.drawn + 1)) (w.host.clock (w.reads + 1 + 1))
          (w.host.uuid (w.drawn + 1 + 1)) (w.host.clock (w.reads + 1 + 1 + 1))
          (w.host.clock (w.reads + 1 + 1 + 1 + 1)) content (usage_metadata_of response.usage) run
          numbered)
        top fresh fresh_too apart

  persists :
      persist_body message ended claim answer (enter ready)
      ≡ (ok tt, record (enter ready) { db = answered_db })
  unfolding persist_body
  persists = rw (said, saves) (completes claim answer _ held)

  commits :
      transaction (persist_body message ended claim answer) ready
      ≡ (ok tt, record (enter ready) { db = answered_db })
  unfolding transaction exit commit enter
  commits = rw (persists, quiet) refl

  abbrev begin : Attempt
  begin = record { world = w; run = run; conversation = conversation }

  speaks_up : append_assistant_message content response begin ≡ (
    ok message,
    record {
      world = record w { reads = w.reads + 1 + 1; drawn = w.drawn + 1 };
      run = run;
      conversation = talked;
    },
  )
  unfolding append_assistant_message append_message uuid4 utc_now Entity.append_message
  speaks_up = rw (active_conversation, full) refl

  ends :
      finish_run content (usage_metadata_of response.usage) (record {
        world = record w { reads = w.reads + 1 + 1; drawn = w.drawn + 1 };
        run = run;
        conversation = talked;
      })
      ≡ (ok tt, record { world = ready; run = ended; conversation = talked })
  unfolding finish_run uuid4 utc_now
  ends =
      on_run-continues
        (record_step (w.host.uuid (w.drawn + 1)) (w.host.clock (w.reads + 1 + 1)) validation end) _
        (record {
          world = record w { reads = w.reads + 1 + 1 + 1; drawn = w.drawn + 1 + 1 };
          run = run;
          conversation = talked;
        })
        _ (validates (w.host.uuid (w.drawn + 1)) (w.host.clock (w.reads + 1 + 1)) run live room)
      ∙ on_run-accepts
          (finish (w.host.uuid (w.drawn + 1 + 1)) (w.host.clock (w.reads + 1 + 1 + 1))
            (w.host.clock (w.reads + 1 + 1 + 1 + 1)) content (usage_metadata_of response.usage))
          (record {
            world = ready;
            run = validated (w.host.uuid (w.drawn + 1)) (w.host.clock (w.reads + 1 + 1)) run;
            conversation = talked;
          })
          _
          (finishes (w.host.uuid (w.drawn + 1)) (w.host.clock (w.reads + 1 + 1))
            (w.host.uuid (w.drawn + 1 + 1)) (w.host.clock (w.reads + 1 + 1 + 1))
            (w.host.clock (w.reads + 1 + 1 + 1 + 1)) content (usage_metadata_of response.usage) run
            live full)

  returns : finish_turn response content claim begin ≡ (
    ok answer,
    record {
      world = record (enter ready) { db = answered_db };
      run = ended;
      conversation = talked;
    },
  )
  unfolding finish_turn
  returns = rw (speaks_up, ends, commits) refl

  calls : call_model run request now ≡ (ok response, w)
  unfolding call_model send within utc_now
  calls = rw (in_time, responded, soon) refl

  attempts :
      attempt prompt command claim (record { world = now; run = run; conversation = conversation })
      ≡ (
        ok answer,
        record {
          world = record (enter ready) { db = answered_db };
          run = ended;
          conversation = talked;
        },
      )
  unfolding attempt
  attempts = rw (prompted, calls, accepted) returns

  returns_started :
      run_started prompt command claim conversation run now
      ≡ (ok answer, record (enter ready) { db = answered_db })
  unfolding run_started
  returns_started = rw attempts refl

  -- The command is valid, its idempotency key, if any, is granted a claim, the turn starts, and its
  -- limits leave room for a third step. The provider is called before the deadline of the run and
  -- answers in the time that is left, with a response that is accepted. When the answer is stored, the
  -- database has the conversation and the run, with positive limits and with two as the highest index
  -- of its steps, the new identifiers are free and those of the two new steps differ, the claim is
  -- still held, and the commit succeeds. Then the turn returns the answer, and the database has, beside
  -- what it had, the assistant's message, the run with its two last steps and the settled claim.
  pub execute_answers :
      execute prompt command asking ≡ (ok answer, record (enter ready) { db = answered_db })
  unfolding execute run_claimed
  execute_answers =
      rw
        (
          valid,
          dispatches prompt command text command.idempotency_key claim asking starting granted,
          begun,
        )
        returns_started
