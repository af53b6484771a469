-- ===== src/Database/UnitOfWork/Atomicity.antt =====
-- infrastructure/database/unit_of_work.py: a transaction does all of its work or none.
use nexabot.Prelude.{◌≡◌, refl, String, Bool, true, false, Option, none, some}
use nexabot.Domain.Errors.{Exception, domain_error, integrity_error, dbapi_error, sqlalchemy_error}
use nexabot.Database.World.{World}
use nexabot.Database.UnitOfWork.{translate_database_errors, enter, commit, exit, transaction}
use nexabot.Exec.{Exec, Result, ok, err}

-- The exceptions of the database driver's layer.
abbrev pub is_database_error : Exception → Bool
is_database_error integrity_error = true
is_database_error dbapi_error = true
is_database_error sqlalchemy_error = true
is_database_error _ = false

translated :
    (operation : String) (e : Exception)
    → is_database_error (translate_database_errors operation e) ≡ false
unfolding translate_database_errors
translated operation (domain_error e) = refl
translated operation _ = refl

-- How a transaction ended: committed with all that its body did, or raised with the database as
-- it was found.
abbrev pub Ended : {A : Type 0} → Exec World A → World → Result A × World → Type 0
Ended {A} body w (ok a, w') = body (enter w) ≡ (ok a, w')
Ended body w (err e, w') = (w'.db ≡ (enter w).db) × (is_database_error e ≡ false)

commit-Ended :
    {A : Type 0} (body : Exec World A) (w : World) (a : A) (fault : Option Exception) (w' : World)
    → body (enter w) ≡ (ok a, w')
    → Ended body w (commit (enter w).db a fault w')
unfolding commit
commit-Ended body w a none w' h = h
commit-Ended body w a (some fault) w' h = (refl, translated "commit" fault)

exit-Ended :
    {A : Type 0} (body : Exec World A) (w : World) (r : Result A) (w' : World)
    → body (enter w) ≡ (r, w')
    → Ended body w (exit (enter w).db r w')
unfolding exit
exit-Ended body w (ok a) w' h = commit-Ended body w a (w'.host.commit_fault w'.begun) w' h
exit-Ended body w (err e) w' h = (refl, translated "transaction" e)

-- Whatever its body does and whatever fails, a transaction that returns has done exactly what its
-- body did on the database that it found, and one that raises leaves that database as it was; no
-- exception of the database layer leaves it.
pub transaction-Ended :
    {A : Type 0} (body : Exec World A) (w : World) → Ended body w (transaction body w)
unfolding transaction
transaction-Ended body w = exit-Ended body w (body (enter w)).0 (body (enter w)).1 refl
