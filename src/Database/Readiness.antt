-- ===== src/Database/Readiness.antt =====
-- infrastructure/database/readiness.py: the probe of the database. What the session does with the
-- query is a parameter.
use nexabot.Prelude.{ℕ, String, ltb, if◌then◌else◌}
use nexabot.Domain.Errors.{Exception, timeout_error, cancelled}
use nexabot.Domain.Json.{Json, end, entry}
use nexabot.Exec.{Result, ok, err}
use nexabot.Interfaces.Health.{Timed, ComponentHealth, healthy}

-- How the session ends, after how many microseconds; `hangs` is a query that never returns.
pub data Probe : Type 0 where
  answers : ℕ → Probe
  raises : ℕ → Exception → Probe
  hangs : Probe

-- `DEFAULT_READINESS_TIMEOUT_SECONDS`
abbrev pub default_readiness_timeout : ℕ
default_readiness_timeout = 2_000_000

abbrev pub error_health : String → ComponentHealth
error_health error = record { status = "error"; details = entry "error" (Json.str error) end }

-- `async with asyncio.timeout(limit)`
abbrev pub limited : ℕ → Probe → Timed Unit
limited limit (answers after) =
    if ltb after limit then (after, ok tt) else (limit, err timeout_error)
limited limit (raises after exc) =
    if ltb after limit then (after, err exc) else (limit, err timeout_error)
limited limit hangs = (limit, err timeout_error)

-- The `except` clauses: a cancellation is no `Exception` and passes by.
abbrev pub report : Result Unit → Result ComponentHealth
report (ok _) = ok healthy
report (err timeout_error) = ok (error_health "timeout")
report (err cancelled) = err cancelled
report (err exc) = ok (error_health "unavailable")

-- `DatabaseReadinessChecker.check`
unfoldable pub check : ℕ → Probe → Timed ComponentHealth
check timeout probe = let (after, r) = limited timeout probe in (after, report r)
