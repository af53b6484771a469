-- ===== src/Application/AgentTurn/Answered.antt =====
-- application/agent/use_cases.py: what a turn that succeeds has stored.
use nexabot.Prelude.{
  ℕ, ◌≡◌, refl, sym, ap, ◌∙◌, subst, String, true, Option, none, some, List, [], ◌∷◌, ◌++◌, arith,
  find, Option-cases, inl, inr,
}
use nexabot.Domain.Json.{Mapping}
use nexabot.Domain.Agent.{AgentRun, AgentStep}
use nexabot.Domain.Conversations.{Message}
use nexabot.Ports.Repositories.{IdempotencyState, completed}
use nexabot.Database.Tables.{AgentRunRow, IdempotencyRow, MessageRow, is_run}
use nexabot.Database.World.{World}
use nexabot.Database.UnitOfWork.{enter, transaction}
use nexabot.Database.UnitOfWork.Atomicity.{Ended, transaction-Ended}
use nexabot.Database.Idempotency
use nexabot.Database.Idempotency.Statements.{get_row, is_open, settle_row}
use nexabot.Database.Idempotency.Claims.{IsKeyed, settle_outcome, settle_row-outcome, settled_row}
use nexabot.Database.Conversations
use nexabot.Database.AgentRuns
use nexabot.Application.AgentTurn.Command.{Claim, AgentTurnResult}
use nexabot.Application.AgentTurn.Stored.{result_to_stored}
use nexabot.Application.AgentTurn.Finish.{persist_body, complete_if_any}
use nexabot.Exec.{Exec, Result, ok, err, >>=-eq-ok, continue}

-- The tables that saving a run leaves alone.
abbrev pub beside : World → List MessageRow × List IdempotencyRow
beside w = (w.db.messages, w.db.idempotency_records)

append_step-beside : (s : AgentStep) (w : World) → beside (AgentRuns.append_step s w).1 ≡ beside w
unfolding AgentRuns.append_step
append_step-beside s w = ground arith

continue-beside :
    (r : Result Unit) (k : Exec World Unit) (w : World)
    → ((u : World) → beside (k u).1 ≡ beside u)
    → beside (continue r (λ _. k) w).1 ≡ beside w
continue-beside (ok a) k w h = h w
continue-beside (err e) k w h = refl

append_steps-beside :
    (steps : List AgentStep) (w : World) → beside (AgentRuns.append_steps steps w).1 ≡ beside w
unfolding AgentRuns.append_steps
append_steps-beside [] w = refl
append_steps-beside (s ∷ steps) w =
    continue-beside (AgentRuns.append_step s w).0 (AgentRuns.append_steps steps)
      (AgentRuns.append_step s w).1 (append_steps-beside steps)
    ∙ append_step-beside s w

update_run-beside :
    (run : AgentRun) (row : AgentRunRow) (w : World)
    → beside (AgentRuns.update_run run row w).1 ≡ beside w
unfolding AgentRuns.update_run
update_run-beside run row w = ground arith

pub save-beside : (run : AgentRun) (w : World) → beside (AgentRuns.save run w).1 ≡ beside w
unfolding AgentRuns.save
save-beside run w = elim (Option-cases (find (is_run run.id) w.db.agent_runs)) [
  | inl e ↦ rw e refl
  | inr (row, e) ↦ rw e (
      continue-beside (AgentRuns.update_run run row w).0
        (λ u.
          AgentRuns.append_steps
            (AgentRuns.new_steps (AgentRuns.highest_index run.id u.db.agent_steps) run.steps) u)
        (AgentRuns.update_run run row w).1 (λ u. append_steps-beside _ u)
      ∙ update_run-beside run row w)
]

abbrev pub message_row : Message → MessageRow
message_row m = record {
  id = m.id;
  conversation_id = m.conversation_id;
  role = m.role;
  content = m.content;
  meta = m.metadata;
  created_at = m.created_at;
}

pub append_message-beside :
    (m : Message) (w w' : World)
    → Conversations.append_message m w ≡ (ok tt, w')
    → beside w' ≡ (w.db.messages ++ message_row m ∷ [], w.db.idempotency_records)
unfolding Conversations.append_message
append_message-beside m w w' h = ground arith

pub settle-eq-ok :
    (namespace key : String) (token : ℕ) (state : IdempotencyState) (result : Mapping)
    (w w' : World)
    → Idempotency.settle namespace key token state result w ≡ (ok tt, w')
    → ((settle_row namespace key token state result w.db.idempotency_records).0 ≡ true)
      × (beside w' ≡ (
        w.db.messages,
        (settle_row namespace key token state result w.db.idempotency_records).1,
      ))
unfolding Idempotency.settle
settle-eq-ok namespace key token state result w w' h = (ground arith, ground arith)

-- A settlement that won found the claim started and its own.
won_claim :
    (token : ℕ) (state : IdempotencyState) (result : Mapping) (found : Option IdempotencyRow)
    → (settle_outcome token state result found).0 ≡ true
    → (r : IdempotencyRow) × (found ≡ some r)
      × (is_open r.state ≡ true)
      × (r.claim_token ≡ token)
      × ((settle_outcome token state result found).1 ≡ some (settled_row state result r))
won_claim token state result none h = absurd (ground arith)
won_claim token state result (some r) h = (r, refl, ground arith, ground arith, ground arith)

-- What an answered turn has done to the table of the claims.
abbrev pub Completes : Claim → AgentTurnResult → List IdempotencyRow → List IdempotencyRow → Type 0
Completes claim result before after =
    (r : IdempotencyRow) × (get_row "agent_run" claim.key before ≡ some r)
    × (is_open r.state ≡ true)
    × (r.claim_token ≡ claim.token)
    × (get_row "agent_run" claim.key after
        ≡ some (settled_row completed (result_to_stored result) r))

completes :
    (claim : Claim) (result : AgentTurnResult) (w w' : World)
    → IsKeyed w.db.idempotency_records
    → complete_if_any (some claim) result w ≡ (ok tt, w')
    → Completes claim result w.db.idempotency_records w'.db.idempotency_records
      × (w'.db.messages ≡ w.db.messages)
unfolding Idempotency.complete
completes claim result w w' k h =
    let stored = result_to_stored result in
    let (won, after) = settle-eq-ok "agent_run" claim.key claim.token completed stored w w' h in
    let (first, second, _) =
      settle_row-outcome "agent_run" claim.key claim.token completed stored w.db.idempotency_records
        k in
    let (r, found, opened, mine, settled) =
      won_claim claim.token completed stored
        (get_row "agent_run" claim.key w.db.idempotency_records) (sym first ∙ won) in
    (
      (
        r,
        found,
        opened,
        mine,
        ap (λ p. get_row "agent_run" claim.key p.1) after ∙ second ∙ settled,
      ),
      ap (λ p. p.0) after,
    )

persist-Completes :
    (message : Message) (run : AgentRun) (claim : Claim) (result : AgentTurnResult) (w w' : World)
    → IsKeyed w.db.idempotency_records
    → persist_body message run (some claim) result w ≡ (ok tt, w')
    → (w'.db.messages ≡ w.db.messages ++ message_row message ∷ [])
      × Completes claim result w.db.idempotency_records w'.db.idempotency_records
unfolding persist_body
persist-Completes message run claim result w w' k h =
    let (_, first, h1) = >>=-eq-ok (Conversations.append_message message) _ w h in
    let (_, second, h2) =
      >>=-eq-ok (AgentRuns.save run) (λ _. complete_if_any (some claim) result) _ h1 in
    let v = (Conversations.append_message message w).1 in
    let u = (AgentRuns.save run v).1 in
    let both = save-beside run v ∙ append_message-beside message w v first in
    let same = ap (λ p. p.1) both in
    let (completed_claim, same_messages) =
      completes claim result u w' (subst IsKeyed (sym same) k) h2 in
    (
      same_messages ∙ ap (λ p. p.0) both,
      subst (λ rows. Completes claim result rows w'.db.idempotency_records) same completed_claim,
    )

-- When the transaction that ends a turn with a claim succeeds, the claim was still started and the
-- turn's own when it began; afterwards the claim is completed with the result, and the assistant's
-- message is stored once, after all the others. So an attempt whose claim was taken over or settled
-- stores no answer.
pub persist-Answers :
    (message : Message) (run : AgentRun) (claim : Claim) (result : AgentTurnResult) (w w' : World)
    → IsKeyed (enter w).db.idempotency_records
    → transaction (persist_body message run (some claim) result) w ≡ (ok tt, w')
    → (w'.db.messages ≡ (enter w).db.messages ++ message_row message ∷ [])
      × Completes claim result (enter w).db.idempotency_records w'.db.idempotency_records
persist-Answers message run claim result w w' k h =
    persist-Completes message run claim result (enter w) w' k (
      subst (Ended (persist_body message run (some claim) result) w) h
        (transaction-Ended (persist_body message run (some claim) result) w))
