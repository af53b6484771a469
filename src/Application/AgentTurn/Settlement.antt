-- ===== src/Application/AgentTurn/Settlement.antt =====
-- application/agent/use_cases.py: the settlement of a failed turn.
use nexabot.Prelude.{String, false, Option, none, some, [], ◌∷◌, if◌then◌else◌}
use nexabot.Domain.Errors.{
  Detail, Exception, domain_error, cancelled, NexaBotError, external_service_error, type_name,
}
use nexabot.Domain.Agent.{AgentRun, is_terminal, fail}
use nexabot.Database.World.{World, utc_now, uuid4}
use nexabot.Database.UnitOfWork.{transaction}
use nexabot.Database.Idempotency
use nexabot.Database.AgentRuns
use nexabot.Application.AgentTurn.Command.{idempotency_namespace, Claim}
use nexabot.Exec.{Exec, Result, ok, err, pure, lift, ◌>>=◌, ◌>>◌}

-- `_normalize_failure`, of what `except Exception` catches.
unfoldable pub normalize_failure : Exception → NexaBotError
normalize_failure (domain_error e) = e
normalize_failure exc =
    external_service_error "The model provider failed." "llm_provider_error" false
      (("error_type", Detail.text (type_name exc)) ∷ [])

-- `except Exception: logger.exception(...)`
abbrev pub logged : Result Unit → Result Unit
logged (ok _) = ok tt
logged (err cancelled) = err cancelled
logged (err exc) = ok tt

unfoldable pub swallow : Exec World Unit → Exec World Unit
swallow m w = let (r, w') = m w in (logged r, w')

abbrev pub or_run : Option AgentRun → AgentRun → AgentRun
or_run none run = run
or_run (some persisted) run = persisted

-- Fails a run and writes it.
unfoldable pub fail_and_save : AgentRun → String → Exec World Unit
fail_and_save target reason = do
  step_id ← uuid4
  step_at ← utc_now
  now ← utc_now
  ended ← lift (fail step_id step_at now reason target)
  AgentRuns.save ended

-- The body of `_settle_failed_run`.
unfoldable pub settle_run_body : AgentRun → String → Exec World Unit
settle_run_body run reason = do
  persisted ← AgentRuns.get run.id
  let target = or_run persisted run
  if is_terminal target.status then pure tt else fail_and_save target reason

unfoldable pub settle_failed_run : AgentRun → String → Exec World Unit
settle_failed_run run reason = swallow (transaction (settle_run_body run reason))

-- A lost claim and any other failure are logged alike.
unfoldable pub settle_failed_claim : Claim → String → Exec World Unit
settle_failed_claim claim reason =
    swallow (transaction (Idempotency.fail idempotency_namespace claim.key reason claim.token))

abbrev pub settle_claim_if_any : Option Claim → String → Exec World Unit
settle_claim_if_any none reason = pure tt
settle_claim_if_any (some claim) reason = settle_failed_claim claim reason

-- `_fail_turn`: two transactions, so that neither settlement undoes the other.
unfoldable pub fail_turn : AgentRun → Option Claim → String → Exec World Unit
fail_turn run claim reason = do settle_failed_run run reason; settle_claim_if_any claim reason
