-- ===== src/Interfaces/Health.antt =====
-- interfaces/api/health.py: the health endpoints. A coroutine is what it ends with, after how many
-- microseconds.
use nexabot.Prelude.{ℕ, String, Option, none, some, List, [], ◌∷◌, str_eq, if◌then◌else◌}
use nexabot.Domain.Errors.{Exception}
use nexabot.Domain.Json.{Mapping, end}
use nexabot.Exec.{Result, ok, err}

abbrev pub Timed : Type 0 → Type 0
Timed A = ℕ × Result A

pub record ComponentHealth : Type 0 where
  pub status : String
  pub details : Mapping

pub record ReadinessReport : Type 0 where
  pub status : String
  pub components : List (String × ComponentHealth)

abbrev pub healthy : ComponentHealth
healthy = record { status = "ok"; details = end }

-- How a route ends; `http_exception` has the status and the detail of an HTTPException.
pub data Reply : Type 0 where
  returns : ReadinessReport → Reply
  http_exception : ℕ → ReadinessReport → Reply
  raises : Exception → Reply

abbrev unknown_report : ReadinessReport
unknown_report = record {
  status = "degraded";
  components =
      ("application", healthy)
      ∷ ("dependencies", record { status = "unknown"; details = end })
      ∷ [];
}

abbrev pub judge_report : ReadinessReport → Reply
judge_report report =
    if str_eq report.status "ok" then returns report else http_exception 503 report

abbrev pub judge : Result ReadinessReport → Reply
judge (ok report) = judge_report report
judge (err exc) = raises exc

-- `ready`; `check` is `checker.check()`, or none if no checker is installed.
unfoldable pub ready : Option (Timed ReadinessReport) → ℕ × Reply
ready none = (0, judge_report unknown_report)
ready (some (after, check)) = (after, judge check)

-- `live`
abbrev pub live : String × String
live = ("status", "ok")
