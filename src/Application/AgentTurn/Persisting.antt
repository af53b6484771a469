-- ===== src/Application/AgentTurn/Persisting.antt =====
-- application/agent/use_cases.py: what the transaction that ends a turn has written.
use nexabot.Prelude.{
  ℕ, ◌≡◌, refl, sym, ap, subst, ◌∙◌, Bool, String, Option, none, some, List, [], ◌∷◌, ◌++◌, ◌==◌,
  ◌&&◌, arith, find, find-passes, length, select, str_eq, update_where,
}
use nexabot.Prelude.Unique.{find-update_where}
use nexabot.Domain.Json.{Mapping}
use nexabot.Domain.Agent.{AgentRun}
use nexabot.Domain.Conversations.{Message}
use nexabot.Domain.Errors.{domain_error, not_found_error}
use nexabot.Ports.Repositories.{IdempotencyState, completed}
use nexabot.Database.Tables.{AgentRunRow, IdempotencyRow, is_run}
use nexabot.Database.World.{World}
use nexabot.Database.Idempotency
use nexabot.Database.Idempotency.Statements.{is_open, settle_row}
use nexabot.Database.Conversations
use nexabot.Database.AgentRuns
use nexabot.Database.AgentRuns.{saved, highest_index, new_steps}
use nexabot.Database.AgentRuns.Reading.{append_steps-eq-ok}
use nexabot.Application.AgentTurn.Command.{Claim, AgentTurnResult}
use nexabot.Application.AgentTurn.Stored.{result_to_stored}
use nexabot.Application.AgentTurn.Finish.{persist_body, complete_if_any}
use nexabot.Application.AgentTurn.Answered.{
  message_row, save-beside, append_message-beside, settle-eq-ok,
}
use nexabot.Exec.{ok, err, >>=-eq-ok, gets, ◌>>=◌}

-- The row of the key of a claim, if it is started and bears the token.
abbrev pub is_own : Claim → IdempotencyRow → Bool
is_own claim r =
    str_eq r.namespace "agent_run"
    && str_eq r.key claim.key
    && is_open r.state
    && r.claim_token == claim.token

-- What the end of a turn does to the claims: without a claim nothing; with one, the one row of its
-- key that is started and bears its token is completed with the result.
abbrev pub Settled :
    Option Claim → AgentTurnResult → List IdempotencyRow → List IdempotencyRow → Type 0
Settled none result before after = after ≡ before
Settled (some claim) result before after =
    (length (select (is_own claim) before) ≡ 1)
    × (after
        ≡ update_where (is_own claim)
            (λ (r : IdempotencyRow). record r {
              state = completed;
              result = result_to_stored result;
            })
            before)

update_run-eq-ok :
    (run : AgentRun) (row : AgentRunRow) (w w' : World)
    → AgentRuns.update_run run row w ≡ (ok tt, w')
    → w'.db.agent_runs ≡ update_where (is_run run.id) (saved run) w.db.agent_runs
unfolding AgentRuns.update_run
update_run-eq-ok run row w w' h = ground arith

saved_rows :
    (run : AgentRun) (found : Option AgentRunRow) (w w' : World)
    → find (is_run run.id) w.db.agent_runs ≡ found
    → AgentRuns.save run w ≡ (ok tt, w')
    → (row : AgentRunRow) × (find (is_run run.id) w'.db.agent_runs ≡ some (saved run row))
unfolding AgentRuns.save
saved_rows run none w w' e h =
    let refused : (AgentRuns.save run w).0
        ≡ err (domain_error (not_found_error "Agent run not found." "agent_run_not_found" [])) =
      rw (AgentRuns.save, e) refl in
    absurd (cc (sym refused ∙ ap (λ p. p.0) h))
saved_rows run (some row) w w' e h =
    let rest = λ (_ : Unit).
      gets (λ (u : World). highest_index run.id u.db.agent_steps) >>= λ highest.
      AgentRuns.append_steps (new_steps highest run.steps) in
    let opened : AgentRuns.save run w ≡ (AgentRuns.update_run run row >>= rest) w =
      rw (AgentRuns.save, e) refl in
    let (_, first, second) = >>=-eq-ok (AgentRuns.update_run run row) rest w (sym opened ∙ h) in
    let u = (AgentRuns.update_run run row w).1 in
    let (runs, _, _) =
      append_steps-eq-ok (new_steps (highest_index run.id u.db.agent_steps) run.steps) u w'
        second in
    (
      row,
      ap (find (is_run run.id)) (runs ∙ update_run-eq-ok run row w u first)
          ∙ find-update_where (is_run run.id) (is_run run.id) (saved run) (λ r. refl)
              w.db.agent_runs
          ∙ rw (e, find-passes (is_run run.id) w.db.agent_runs row e) refl,
    )

settle-runs :
    (namespace key : String) (token : ℕ) (state : IdempotencyState) (result : Mapping)
    (w w' : World)
    → Idempotency.settle namespace key token state result w ≡ (ok tt, w')
    → w'.db.agent_runs ≡ w.db.agent_runs
unfolding Idempotency.settle
settle-runs namespace key token state result w w' h = ground arith

-- What the last call leaves of the messages and of the runs, and does to the claims.
completed_claim :
    (claim : Option Claim) (result : AgentTurnResult) (w w' : World)
    → complete_if_any claim result w ≡ (ok tt, w')
    → (w'.db.messages ≡ w.db.messages)
      × (w'.db.agent_runs ≡ w.db.agent_runs)
      × Settled claim result w.db.idempotency_records w'.db.idempotency_records
unfolding Idempotency.complete settle_row
completed_claim none result w w' h =
    let same : w' ≡ w = sym (ap (λ p. p.1) h) in
    (
      ap (λ (u : World). u.db.messages) same,
      ap (λ (u : World). u.db.agent_runs) same,
      ap (λ (u : World). u.db.idempotency_records) same,
    )
completed_claim (some claim) result w w' h =
    let (won, after) =
      settle-eq-ok "agent_run" claim.key claim.token completed (result_to_stored result) w w' h in
    (
      ap (λ p. p.0) after,
      settle-runs "agent_run" claim.key claim.token completed (result_to_stored result) w w' h,
      (ground (arith, won), ap (λ p. p.1) after),
    )

-- The message stands behind the others, the row of the run has what the run has, and the claim is
-- settled.
pub persist_body-eq-ok :
    (message : Message) (run : AgentRun) (claim : Option Claim) (result : AgentTurnResult)
    (w w' : World)
    → persist_body message run claim result w ≡ (ok tt, w')
    → (row : AgentRunRow) × (find (is_run run.id) w'.db.agent_runs ≡ some (saved run row))
      × (w'.db.messages ≡ w.db.messages ++ message_row message ∷ [])
      × Settled claim result w.db.idempotency_records w'.db.idempotency_records
unfolding persist_body
persist_body-eq-ok message run claim result w w' h =
    let (_, first, h1) = >>=-eq-ok (Conversations.append_message message) _ w h in
    let (_, second, h2) = >>=-eq-ok (AgentRuns.save run) (λ _. complete_if_any claim result) _ h1 in
    let v = (Conversations.append_message message w).1 in
    let u = (AgentRuns.save run v).1 in
    let both = save-beside run v ∙ append_message-beside message w v first in
    let (row, at) = saved_rows run (find (is_run run.id) v.db.agent_runs) v u refl second in
    let (messages, runs, settled) = completed_claim claim result u w' h2 in
    (
      row,
      ap (find (is_run run.id)) runs ∙ at,
      messages ∙ ap (λ p. p.0) both,
      subst (λ rows. Settled claim result rows w'.db.idempotency_records) (ap (λ p. p.1) both)
          settled,
    )
