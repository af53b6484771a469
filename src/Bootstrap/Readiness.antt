-- ===== src/Bootstrap/Readiness.antt =====
-- bootstrap/container.py: the readiness of the process, and the checkers that the container wires.
pub mod Verdict
use nexabot.Prelude.{
  ℕ, String, Bool, true, false, ◌&&◌, Option, none, some, List, [], ◌∷◌, str_eq, ltb, if◌then◌else◌,
}
use nexabot.Domain.Errors.{Exception}
use nexabot.Exec.{Result, ok, err}
use nexabot.Interfaces.Health.{Timed, ComponentHealth, ReadinessReport, healthy, Reply, ready}
use nexabot.Database.Readiness.{Probe, default_readiness_timeout}
use nexabot.Database.Readiness

abbrev pub Components : Type 0
Components = List (String × ComponentHealth)

abbrev pub all_ok : Components → Bool
all_ok [] = true
all_ok ((name, component) ∷ rest) = str_eq component.status "ok" && all_ok rest

-- `_aggregate_status`
unfoldable pub aggregate_status : Components → String
aggregate_status components = if all_ok components then "ok" else "degraded"

abbrev pub report_of : Components → ReadinessReport
report_of components = record { status = aggregate_status components; components = components }

-- `StaticReadinessChecker.check`
unfoldable pub static_check : Components → Timed ReadinessReport
static_check components = (0, ok (report_of components))

-- The checks that run at once: the name of each, when it ends and with what.
abbrev pub Checks : Type 0
Checks = List (String × Timed ComponentHealth)

abbrev earlier : ℕ → Exception → Option (ℕ × Exception) → ℕ × Exception
earlier after exc none = (after, exc)
earlier after exc (some (other, e)) = if ltb other after then (other, e) else (after, exc)

-- The first check that raises, in time.
unfoldable pub first_failure : Checks → Option (ℕ × Exception)
first_failure [] = none
first_failure ((name, (after, ok health)) ∷ rest) = first_failure rest
first_failure ((name, (after, err exc)) ∷ rest) = some (earlier after exc (first_failure rest))

-- `dict(zip(names, results))`, when no check has raised.
unfoldable pub components_of : Checks → Components
components_of [] = []
components_of ((name, (after, ok health)) ∷ rest) = (name, health) ∷ components_of rest
components_of ((name, (after, err exc)) ∷ rest) = components_of rest

abbrev max : ℕ → ℕ → ℕ
max a b = if ltb a b then b else a

unfoldable pub slowest : Checks → ℕ
slowest [] = 0
slowest ((name, (after, r)) ∷ rest) = max after (slowest rest)

abbrev pub gathered : Checks → Option (ℕ × Exception) → Timed ReadinessReport
gathered checks (some (after, exc)) = (after, err exc)
gathered checks none = (slowest checks, ok (report_of (components_of checks)))

-- `CompositeReadinessChecker.check`: `asyncio.gather` ends with the slowest check, or with the first
-- that raises.
unfoldable pub composite_check : Checks → Timed ReadinessReport
composite_check checks = gathered checks (first_failure checks)

-- `_AlwaysHealthy.check`
abbrev pub always_healthy : Timed ComponentHealth
always_healthy = (0, ok healthy)

-- The checkers of `Container.from_environment`.
unfoldable pub container_checks : Probe → Checks
container_checks probe =
    ("application", always_healthy)
    ∷ ("database", Readiness.check default_readiness_timeout probe)
    ∷ []

-- `GET /health/ready` of the process that `build_api_app` wires.
unfoldable pub serve_ready : Probe → ℕ × Reply
serve_ready probe = ready (some (composite_check (container_checks probe)))
