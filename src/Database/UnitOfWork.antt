-- ===== src/Database/UnitOfWork.antt =====
-- infrastructure/database/unit_of_work.py and errors.py: one transaction, and the translation of
-- the failures of the database into domain errors.
pub mod Atomicity
use nexabot.Prelude.{ℕ, ◌+◌, String, Bool, true, false, Option, none, some, [], ◌∷◌}
use nexabot.Domain.Errors.{
  Detail, Exception, domain_error, integrity_error, dbapi_error, sqlalchemy_error, conflict_error,
  external_service_error,
}
use nexabot.Database.Tables.{Db}
use nexabot.Database.World.{World, with_db}
use nexabot.Exec.{Exec, Result, ok, err}

-- `translate_database_errors`: the first matching `except` wins; what is no error of the
-- database passes through.
unfoldable pub translate_database_errors : String → Exception → Exception
translate_database_errors operation integrity_error = domain_error (
    conflict_error "The requested change conflicts with existing data." "database_conflict"
      (("operation", Detail.text operation) ∷ []))
translate_database_errors operation dbapi_error = domain_error (
    external_service_error "The database is currently unavailable." "database_unavailable" true
      (("operation", Detail.text operation) ∷ []))
translate_database_errors operation sqlalchemy_error = domain_error (
    external_service_error "The database rejected the operation." "database_error" false
      (("operation", Detail.text operation) ∷ []))
translate_database_errors operation exc = exc

-- `__aenter__`: a fresh session sees what others have committed.
unfoldable pub enter : World → World
enter w = record w { db = w.host.others w.begun w.db; begun = w.begun + 1 }

-- `session.commit()`, by how the host says that it ends; a failed commit leaves nothing behind.
unfoldable pub commit : {A : Type 0} → Db → A → Option Exception → World → Result A × World
commit before a none w = (ok a, w)
commit before a (some fault) w = (err (translate_database_errors "commit" fault), with_db before w)

-- `__aexit__`, given the database as the session found it: a clean exit commits, an exception
-- rolls back.
unfoldable pub exit : {A : Type 0} → Db → Result A → World → Result A × World
exit before (ok a) w = commit before a (w.host.commit_fault w.begun) w
exit before (err e) w = (err (translate_database_errors "transaction" e), with_db before w)

-- `async with self.uow_factory() as uow: body`
unfoldable pub transaction : {A : Type 0} → Exec World A → Exec World A
transaction body w = let (r, w') = body (enter w) in exit (enter w).db r w'
