-- ===== src/Application/AgentTurn/Outcome.antt =====
-- application/agent/use_cases.py: a result that a started turn returns is one that it has stored.
use nexabot.Prelude.{
  inl, inr, ℕ, ◌≡◌, ◌≢◌, refl, sym, ap, subst, ◌∙◌, String, Option, some, [], ◌∷◌, ◌++◌, find,
  arith,
}
use nexabot.Domain.Errors.{Exception, cancelled, NexaBotError}
use nexabot.Domain.Json.{Mapping, end}
use nexabot.Domain.Agent.{AgentRun, succeeded, finish, record_step, validation}
use nexabot.Domain.Conversations.{Conversation, Message, MessageRole}
use nexabot.Domain.Conversations as Entity
use nexabot.Domain.Conversations.History.{append_message-eq-ok}
use nexabot.Ports.Gateway.{LlmResponse}
use nexabot.Database.World.{World, utc_now, uuid4}
use nexabot.Database.Tables.{AgentRunRow, is_run}
use nexabot.Database.AgentRuns.{saved}
use nexabot.Database.UnitOfWork.{enter, transaction}
use nexabot.Database.UnitOfWork.Atomicity.{Ended, transaction-Ended}
use nexabot.Application.AgentTurn.Answered.{message_row}
use nexabot.Application.AgentTurn.Persisting.{Settled, persist_body-eq-ok}
use nexabot.Application.AgentTurn.Command.{Claim, RunAgentTurnCommand, AgentTurnResult}
use nexabot.Application.AgentTurn.Request.{build_request, validate_response}
use nexabot.Application.AgentTurn.Phases.{call_model}
use nexabot.Application.AgentTurn.Settlement.{fail_turn, normalize_failure}
use nexabot.Application.AgentTurn.Finish.{
  Attempt, in_world, on_run, append_message, usage_metadata_of, append_assistant_message,
  finish_run, result_of, persist_body, finish_turn,
}
use nexabot.Application.AgentTurn.Execute.{attempt, handle_failure, settled, run_started}
use nexabot.Exec.{
  Exec, Result, ok, err, >>=-eq-ok, ◌>>=◌, continue, raise, lift, pure, Result-cases,
}

in_world-eq-ok :
    {A : Type 0} (m : Exec World A) (a a' : Attempt) (x : A)
    → in_world m a ≡ (ok x, a')
    → (m a.world ≡ (ok x, a'.world)) × (a' ≡ record a { world = (m a.world).1 })
in_world-eq-ok m a a' x h =
    let ended = ap (λ p. p.1) h in
    (
      ap (λ r. (r, (m a.world).1)) (ap (λ p. p.0) h) ∙ ap (λ (b : Attempt). (ok x, b.world)) ended,
      sym ended,
    )

on_run-eq-ok :
    (method : AgentRun → Result AgentRun) (a a' : Attempt)
    → on_run method a ≡ (ok tt, a')
    → method a.run ≡ ok a'.run
on_run-eq-ok method a a' h = ground arith

finish-succeeds :
    (id step_at now : ℕ) (response : String) (usage : Mapping) (r r' : AgentRun)
    → finish id step_at now response usage r ≡ ok r'
    → (r'.status ≡ succeeded) × (r'.final_response ≡ some response)
unfolding finish
finish-succeeds id step_at now response usage r r' h = (ground arith, ground arith)

-- Every successful run of a step leaves a run that has succeeded with a response.
abbrev EndsSucceeded : String → Exec Attempt Unit → Type 0
EndsSucceeded content m =
    (b a' : Attempt)
    → m b ≡ (ok tt, a')
    → (a'.run.status ≡ succeeded) × (a'.run.final_response ≡ some content)

>>=-EndsSucceeded :
    {A : Type 0} (content : String) (m : Exec Attempt A) (f : A → Exec Attempt Unit)
    → ((x : A) → EndsSucceeded content (f x))
    → EndsSucceeded content (m >>= f)
>>=-EndsSucceeded content m f each b a' h =
    let (x, _, rest) = >>=-eq-ok m f b h in each x (m b).1 a' rest

finish_run-EndsSucceeded :
    (content : String) (usage : Mapping) → EndsSucceeded content (finish_run content usage)
unfolding finish_run
finish_run-EndsSucceeded content usage =
    >>=-EndsSucceeded content (in_world uuid4) _ λ validation_id.
      >>=-EndsSucceeded content (in_world utc_now) _ λ validated_at.
        >>=-EndsSucceeded content (on_run (record_step validation_id validated_at validation end)) _
          λ _. >>=-EndsSucceeded content (in_world uuid4) _ λ final_id.
            >>=-EndsSucceeded content (in_world utc_now) _ λ final_at.
              >>=-EndsSucceeded content (in_world utc_now) _ λ now b a' h.
                finish-succeeds final_id final_at now content usage b.run a'.run
                  (on_run-eq-ok (finish final_id final_at now content usage) b a' h)

-- Every successful run of a step makes the assistant's message of a content.
abbrev Makes : String → Exec Attempt Message → Type 0
Makes content m =
    (b a' : Attempt) (message : Message)
    → m b ≡ (ok message, a')
    → (message.content ≡ content) × (message.role ≡ MessageRole.assistant)

>>=-Makes :
    {A : Type 0} (content : String) (m : Exec Attempt A) (f : A → Exec Attempt Message)
    → ((x : A) → Makes content (f x))
    → Makes content (m >>= f)
>>=-Makes content m f each b a' message h =
    let (x, _, rest) = >>=-eq-ok m f b h in each x (m b).1 a' message rest

append_message-Makes :
    (id created updated : ℕ) (content : String) (metadata : Mapping)
    → Makes content (append_message id created updated MessageRole.assistant content metadata)
unfolding append_message
append_message-Makes id created updated content metadata b a' message h =
    elim (Result-cases (
      Entity.append_message id created updated MessageRole.assistant content metadata
        b.conversation)) [
          | inl ((m, c), e) ↦
              let (_, made) =
                append_message-eq-ok id created updated MessageRole.assistant content metadata
                  b.conversation e in
              let same : message ≡ m = ground arith in
              (
                ap (λ (x : Message). x.content) (same ∙ made),
                ap (λ (x : Message). x.role) (same ∙ made),
              )
          | inr (exc, e) ↦ absurd (ground arith)
        ]

assistant-Makes :
    (content : String) (response : LlmResponse)
    → Makes content (append_assistant_message content response)
unfolding append_assistant_message
assistant-Makes content response = >>=-Makes content (in_world uuid4) _ λ id.
    >>=-Makes content (in_world utc_now) _ λ created.
      >>=-Makes content (in_world utc_now) _
        λ updated. append_message-Makes id created updated content response.provider_metadata

-- A result that was stored together with the assistant's message, the finished run and the claim
-- in one transaction, of which `after` is the world.
pub record IsStored (claim : Option Claim) (result : AgentTurnResult) (after : World) : Type 0 where
  pub message : Message
  pub run : AgentRun
  pub row : AgentRunRow
  pub before : World
  pub persisted : transaction (persist_body message run claim result) before ≡ (ok tt, after)
  pub stored_message : after.db.messages ≡ (enter before).db.messages ++ message_row message ∷ []
  pub response : message.content ≡ result.response
  pub role : message.role ≡ MessageRole.assistant
  pub message_id : message.id ≡ result.assistant_message_id
  pub stored_run : find (is_run result.agent_run_id) after.db.agent_runs ≡ some row
  pub row_status : row.status ≡ succeeded
  pub row_response : row.final_response ≡ some result.response
  pub settled :
      Settled claim result (enter before).db.idempotency_records after.db.idempotency_records
  pub status : result.status ≡ succeeded

abbrev persist : Message → Option Claim → AgentTurnResult → Attempt → Exec Attempt AgentTurnResult
persist message claim result a =
    in_world (transaction (persist_body message a.run claim result)) >>= λ _. pure result

persist-IsStored :
    (message : Message) (content : String) (usage : Mapping) (claim : Option Claim)
    (result : AgentTurnResult) (a a' : Attempt)
    → message.content ≡ content
    → message.role ≡ MessageRole.assistant
    → a.run.status ≡ succeeded
    → a.run.final_response ≡ some content
    → persist message claim (result_of a.run a.conversation message content usage) a a
      ≡ (ok result, a')
    → IsStored claim result a'.world
persist-IsStored message content usage claim result a a' says by done answered h =
    let r = result_of a.run a.conversation message content usage in
    let body = transaction (persist_body message a.run claim r) in
    let (_, first, rest) = >>=-eq-ok (in_world body) (λ _. pure r) a h in
    let same : result ≡ r = cc (ap (λ p. p.0) rest) in
    let (stored, _) = in_world-eq-ok body a _ tt first in
    let last = ap (λ p. p.1.world) rest in
    let persisted = stored ∙ ap (λ w. (ok tt, w)) last in
    let (row, at, messages, settled) =
      persist_body-eq-ok message a.run claim r (enter a.world) a'.world (
        subst (Ended (persist_body message a.run claim r) a.world) persisted
          (transaction-Ended (persist_body message a.run claim r) a.world)) in
    rw same (record {
      message = message;
      run = a.run;
      row = saved a.run row;
      before = a.world;
      persisted = persisted;
      stored_message = messages;
      response = says;
      role = by;
      message_id = refl;
      stored_run = at;
      row_status = done;
      row_response = answered;
      settled = settled;
      status = done;
    })

finish_turn-IsStored :
    (response : LlmResponse) (content : String) (claim : Option Claim) (result : AgentTurnResult)
    (a a' : Attempt)
    → finish_turn response content claim a ≡ (ok result, a')
    → IsStored claim result a'.world
unfolding finish_turn
finish_turn-IsStored response content claim result a a' h =
    let usage = usage_metadata_of response.usage in
    let (message, first, h1) = >>=-eq-ok (append_assistant_message content response) _ a h in
    let (says, by) = assistant-Makes content response a _ message first in
    let (_, second, h2) = >>=-eq-ok (finish_run content usage) _ _ h1 in
    let (done, answered) = finish_run-EndsSucceeded content usage _ _ second in
    persist-IsStored message content usage claim result _ a' says by done answered h2

answered-IsStored :
    (claim : Option Claim) (response : LlmResponse) (result : AgentTurnResult) (a a' : Attempt)
    → (lift (validate_response response) >>= λ content. finish_turn response content claim) a
      ≡ (ok result, a')
    → IsStored claim result a'.world
answered-IsStored claim response result a a' h =
    let (content, _, rest) =
      >>=-eq-ok (lift (validate_response response)) (λ c. finish_turn response c claim) a h in
    finish_turn-IsStored response content claim result a a' rest

attempt-IsStored :
    (prompt : String) (command : RunAgentTurnCommand) (claim : Option Claim)
    (result : AgentTurnResult) (a a' : Attempt)
    → attempt prompt command claim a ≡ (ok result, a')
    → IsStored claim result a'.world
unfolding attempt
attempt-IsStored prompt command claim result a a' h =
    let (request, _, h1) = >>=-eq-ok (lift (build_request prompt command a.conversation)) _ a h in
    let (response, _, h2) = >>=-eq-ok (in_world (call_model a.run request)) _ a h1 in
    answered-IsStored claim response result _ a' h2

raise_errs :
    (r : Result Unit) (failure : NexaBotError) (w w' : World) (result : AgentTurnResult)
    → continue r (λ _. raise {S = World} {A = AgentTurnResult} failure) w ≢ (ok result, w')
raise_errs (ok a) failure w w' result h = cc (ap (λ p. p.0) h)
raise_errs (err e) failure w w' result h = cc (ap (λ p. p.0) h)

-- The handler of a failure never returns a result.
handle_failure-errs :
    (run : AgentRun) (claim : Option Claim) (exc : Exception) (w w' : World)
    (result : AgentTurnResult)
    → handle_failure run claim exc w ≢ (ok result, w')
unfolding handle_failure
handle_failure-errs run claim cancelled w w' result h = cc (ap (λ p. p.0) h)
handle_failure-errs run claim exc w w' result h =
    raise_errs (fail_turn run claim (normalize_failure exc).safe_message w).0
      (normalize_failure exc) (fail_turn run claim (normalize_failure exc).safe_message w).1 w'
      result h

settled-IsStored :
    (claim : Option Claim) (r : Result AgentTurnResult) (a : Attempt) (result : AgentTurnResult)
    (w' : World)
    → ((given : AgentTurnResult) → r ≡ ok given → IsStored claim given a.world)
    → settled claim (r, a) ≡ (ok result, w')
    → IsStored claim result w'
settled-IsStored claim (ok given) a result w' stored h =
    let same : given ≡ result = cc (ap (λ p. p.0) h) in
    subst (λ (p : AgentTurnResult × World). IsStored claim p.0 p.1)
      (ap (λ x. (x, a.world)) same ∙ ap (λ u. (result, u)) (ap (λ p. p.1) h)) (stored given refl)
settled-IsStored claim (err exc) a result w' stored h =
    absurd (handle_failure-errs a.run claim exc a.world w' result h)

-- When a started turn returns a result, the last thing it did was one transaction, which began with
-- some database and left the final one: the assistant's message with that response was added behind
-- the messages, the row of the run has succeeded with that response, and of the claims, if the turn
-- has one, the one row that was started and bore its token is completed with that result; without a
-- claim no claim has changed.
pub run_started-IsStored :
    (prompt : String) (command : RunAgentTurnCommand) (claim : Option Claim)
    (conversation : Conversation) (run : AgentRun) (w w' : World) (result : AgentTurnResult)
    → run_started prompt command claim conversation run w ≡ (ok result, w')
    → IsStored claim result w'
unfolding run_started
run_started-IsStored prompt command claim conversation run w w' result h =
    let a : Attempt = record { world = w; run = run; conversation = conversation } in
    settled-IsStored claim (attempt prompt command claim a).0 (attempt prompt command claim a).1
      result w'
      (λ given e.
        attempt-IsStored prompt command claim given a (attempt prompt command claim a).1
          (ap (λ r. (r, (attempt prompt command claim a).1)) e))
      h
