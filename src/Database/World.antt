-- ===== src/Database/World.antt =====
-- What a turn runs in: the database, and what the process takes from outside. The clock, the
-- UUIDs, the provider's answers, the commits of other workers and the failures of a commit are
-- functions of how often they were asked, so any behaviour of theirs is covered.
use nexabot.Prelude.{ℕ, ◌+◌, Option, List}
use nexabot.Domain.Errors.{Exception}
use nexabot.Ports.Gateway.{LlmRequest, Answer}
use nexabot.Database.Tables.{Db}
use nexabot.Exec.{Exec, ok}

pub record Host : Type 0 where
  -- `utc_now()`, in microseconds
  pub clock : ℕ → ℕ
  pub uuid : ℕ → ℕ
  -- `LLMGateway.complete`
  pub complete : ℕ → LlmRequest → Answer
  -- what other workers have committed when a unit of work begins
  pub others : ℕ → Db → Db
  -- how a commit fails
  pub commit_fault : ℕ → Option Exception

pub record World : Type 0 where
  pub host : Host
  pub db : Db
  pub reads : ℕ
  pub drawn : ℕ
  pub begun : ℕ
  -- the requests that the provider has received, the newest last
  pub sent : List LlmRequest

-- domain/common/time.py
unfoldable pub utc_now : Exec World ℕ
utc_now w = (ok (w.host.clock w.reads), record w { reads = w.reads + 1 })

-- `uuid4()`, also behind the `new_..._id` functions of domain/common/ids.py
unfoldable pub uuid4 : Exec World ℕ
uuid4 w = (ok (w.host.uuid w.drawn), record w { drawn = w.drawn + 1 })

abbrev pub with_db : Db → World → World
with_db db w = record w { db = db }
