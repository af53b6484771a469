-- ===== src/Application/AgentTurn/Failure.antt =====
-- application/agent/use_cases.py: how a turn that has started may end badly.
use nexabot.Prelude.{◌≡◌, refl, ◌⊎◌, inl, inr, String, Option, none, some}
use nexabot.Domain.Errors.{
  NexaBotError, Exception, domain_error, integrity_error, dbapi_error, sqlalchemy_error,
  timeout_error, cancelled, other,
}
use nexabot.Domain.Agent.{AgentRun}
use nexabot.Domain.Conversations.{Conversation}
use nexabot.Database.World.{World}
use nexabot.Database.Idempotency
use nexabot.Database.UnitOfWork.{transaction}
use nexabot.Application.AgentTurn.Command.{
  idempotency_namespace, Claim, RunAgentTurnCommand, AgentTurnResult,
}
use nexabot.Application.AgentTurn.Settlement.{
  normalize_failure, swallow, settle_failed_run, settle_failed_claim, fail_turn, logged,
  settle_run_body, settle_claim_if_any,
}
use nexabot.Application.AgentTurn.Finish.{Attempt}
use nexabot.Application.AgentTurn.Execute.{attempt, handle_failure, run_started, settled}
use nexabot.Exec.{Exec, Result, ok, err, raise, continue}

-- What may leave a started turn: an error of the taxonomy, or the cancellation of the task.
abbrev pub IsReported : {A : Type 0} → Result A → Type 0
IsReported (ok a) = Unit {0}
IsReported (err e) = (e ≡ cancelled) ⊎ ((failure : NexaBotError) × (e ≡ domain_error failure))

-- What is left of an error after `except Exception: logger.exception(...)`.
abbrev IsQuiet : Result Unit → Type 0
IsQuiet (ok a) = Unit {0}
IsQuiet (err e) = e ≡ cancelled

logged-IsQuiet : (r : Result Unit) → IsQuiet (logged r)
logged-IsQuiet (ok a) = tt
logged-IsQuiet (err cancelled) = refl
logged-IsQuiet (err (domain_error e)) = tt
logged-IsQuiet (err integrity_error) = tt
logged-IsQuiet (err dbapi_error) = tt
logged-IsQuiet (err sqlalchemy_error) = tt
logged-IsQuiet (err timeout_error) = tt
logged-IsQuiet (err (other name)) = tt

>>-IsQuiet :
    (r : Result Unit) (k : Exec World Unit) (w : World)
    → IsQuiet r
    → ((u : World) → IsQuiet (k u).0)
    → IsQuiet (continue r (λ _. k) w).0
>>-IsQuiet (ok a) k w h quiet = quiet w
>>-IsQuiet (err e) k w h quiet = h

settle_failed_run-IsQuiet :
    (run : AgentRun) (reason : String) (w : World) → IsQuiet (settle_failed_run run reason w).0
unfolding settle_failed_run swallow
settle_failed_run-IsQuiet run reason w =
    logged-IsQuiet (transaction (settle_run_body run reason) w).0

settle_claim-IsQuiet :
    (claim : Option Claim) (reason : String) (w : World)
    → IsQuiet (settle_claim_if_any claim reason w).0
unfolding settle_failed_claim swallow
settle_claim-IsQuiet none reason w = tt
settle_claim-IsQuiet (some claim) reason w =
    logged-IsQuiet
      (transaction (Idempotency.fail idempotency_namespace claim.key reason claim.token) w).0

fail_turn-IsQuiet :
    (run : AgentRun) (claim : Option Claim) (reason : String) (w : World)
    → IsQuiet (fail_turn run claim reason w).0
unfolding fail_turn
fail_turn-IsQuiet run claim reason w =
    >>-IsQuiet (settle_failed_run run reason w).0 (settle_claim_if_any claim reason)
      (settle_failed_run run reason w).1 (settle_failed_run-IsQuiet run reason w)
      (settle_claim-IsQuiet claim reason)

raise-IsReported :
    (r : Result Unit) (failure : NexaBotError) (w : World)
    → IsQuiet r
    → IsReported (continue r (λ _. raise {S = World} {A = AgentTurnResult} failure) w).0
raise-IsReported (ok a) failure w h = inr (failure, refl)
raise-IsReported (err e) failure w h = inl h

handle_failure-IsReported :
    (run : AgentRun) (claim : Option Claim) (exc : Exception) (w : World)
    → IsReported (handle_failure run claim exc w).0
unfolding handle_failure
handle_failure-IsReported run claim cancelled w = inl refl
handle_failure-IsReported run claim exc w =
    let failure = normalize_failure exc in
    raise-IsReported (fail_turn run claim failure.safe_message w).0 failure
      (fail_turn run claim failure.safe_message w).1
      (fail_turn-IsQuiet run claim failure.safe_message w)

settled-IsReported :
    (claim : Option Claim) (r : Result AgentTurnResult) (a : Attempt)
    → IsReported (settled claim (r, a)).0
settled-IsReported claim (ok result) a = tt
settled-IsReported claim (err exc) a = handle_failure-IsReported a.run claim exc a.world

-- A turn that has started ends with its result, with an error of the taxonomy, or with the
-- cancellation of its task, whatever the provider, the database and the other workers do: no other
-- exception leaves it, also not from the settlement of its failure.
pub run_started-IsReported :
    (prompt : String) (command : RunAgentTurnCommand) (claim : Option Claim)
    (conversation : Conversation) (run : AgentRun) (w : World)
    → IsReported (run_started prompt command claim conversation run w).0
unfolding run_started
run_started-IsReported prompt command claim conversation run w =
    settled-IsReported claim
      (attempt prompt command claim
        (record { world = w; run = run; conversation = conversation })).0
      (attempt prompt command claim
        (record { world = w; run = run; conversation = conversation })).1
