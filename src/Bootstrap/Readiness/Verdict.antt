-- ===== src/Bootstrap/Readiness/Verdict.antt =====
-- bootstrap/container.py: what `GET /health/ready` answers, for any behaviour of the database.
use nexabot.Prelude.{
  ℕ, ◌≤◌, ◌<◌, String, ◌≡◌, refl, ◌⊎◌, inl, inr, true, false, [], ◌∷◌, arith, ltb, Bool-cases,
}
use nexabot.Domain.Errors.{
  Exception, domain_error, integrity_error, dbapi_error, sqlalchemy_error, timeout_error, cancelled,
  other,
}
use nexabot.Exec.{err}
use nexabot.Interfaces.Health.{
  ComponentHealth, ReadinessReport, healthy, Reply, returns, http_exception, ready,
}
use nexabot.Database.Readiness.{
  Probe, answers, raises, hangs, default_readiness_timeout, error_health, limited, check,
}
use nexabot.Bootstrap.Readiness.{
  aggregate_status, first_failure, components_of, slowest, composite_check, container_checks,
  serve_ready,
}

-- The query was answered before the deadline.
pub data HasAnswered : Probe → Type 0 where
  in_time : (after : ℕ) → after < default_readiness_timeout → HasAnswered (answers after)

abbrev pub reported : String → ComponentHealth → ReadinessReport
reported status health = record {
  status = status;
  components = ("application", healthy) ∷ ("database", health) ∷ [];
}

-- What the caller is told: 200 with every component healthy, or 503 with one of two words for what
-- the database did. A cancelled request stays cancelled.
pub data IsVerdict : Probe → Reply → Type 0 where
  up :
      (after : ℕ)
      → after < default_readiness_timeout
      → IsVerdict (answers after) (returns (reported "ok" healthy))
  down :
      (probe : Probe) (error : String)
      → ¬ HasAnswered probe
      → (error ≡ "timeout") ⊎ (error ≡ "unavailable")
      → IsVerdict probe (http_exception 503 (reported "degraded" (error_health error)))
  stopped :
      (after : ℕ)
      → after < default_readiness_timeout
      → IsVerdict (raises after cancelled) (Reply.raises cancelled)

abbrev IsBounded : Probe → Type 0
IsBounded probe =
    ((serve_ready probe).0 ≤ default_readiness_timeout) × IsVerdict probe (serve_ready probe).1

late : (after : ℕ) → ltb after default_readiness_timeout ≡ false → ¬ HasAnswered (answers after)
late after h (in_time a lt) = absurd (ground arith)

not_raised : (after : ℕ) (exc : Exception) → ¬ HasAnswered (raises after exc)
not_raised after exc = elim [ ]

failed :
    (after : ℕ) (exc : Exception)
    → ltb after default_readiness_timeout ≡ true
    → IsBounded (raises after exc)
unfolding serve_ready ready composite_check container_checks check first_failure components_of
    slowest aggregate_status
failed after cancelled h = rw h (ground arith, stopped after (ground arith))
failed after timeout_error h = rw h (ground arith, down _ "timeout" (not_raised after _) (inl refl))
failed after (domain_error e) h =
    rw h (ground arith, down _ "unavailable" (not_raised after _) (inr refl))
failed after integrity_error h =
    rw h (ground arith, down _ "unavailable" (not_raised after _) (inr refl))
failed after dbapi_error h =
    rw h (ground arith, down _ "unavailable" (not_raised after _) (inr refl))
failed after sqlalchemy_error h =
    rw h (ground arith, down _ "unavailable" (not_raised after _) (inr refl))
failed after (other name) h =
    rw h (ground arith, down _ "unavailable" (not_raised after _) (inr refl))

answered : (after : ℕ) → ltb after default_readiness_timeout ≡ true → IsBounded (answers after)
unfolding serve_ready ready composite_check container_checks check first_failure components_of
    slowest aggregate_status
answered after h = rw h (ground arith, up after (ground arith))

expired :
    (probe : Probe)
    → limited default_readiness_timeout probe ≡ (default_readiness_timeout, err timeout_error)
    → ¬ HasAnswered probe
    → IsBounded probe
unfolding serve_ready ready composite_check container_checks check first_failure components_of
    slowest aggregate_status
expired probe h not = rw h (ground arith, down _ "timeout" not (inl refl))

-- Whatever the database does, `GET /health/ready` answers within the timeout of the probe: 200 with
-- both components healthy exactly when the query was answered in time, 503 otherwise, with no more
-- than "timeout" or "unavailable" about the failure. Only a cancellation passes through.
pub serve_ready-IsVerdict :
    (probe : Probe)
    → ((serve_ready probe).0 ≤ default_readiness_timeout) × IsVerdict probe (serve_ready probe).1
serve_ready-IsVerdict (answers after) = elim (Bool-cases (ltb after default_readiness_timeout)) [
  | inl soon ↦ answered after soon
  | inr out ↦ expired (answers after) (rw out refl) (late after out)
]
serve_ready-IsVerdict (raises after exc) = elim (Bool-cases (ltb after default_readiness_timeout)) [
  | inl soon ↦ failed after exc soon
  | inr out ↦ expired (raises after exc) (rw out refl) (not_raised after exc)
]
serve_ready-IsVerdict hangs = expired hangs refl λ h. elim h [ ]
