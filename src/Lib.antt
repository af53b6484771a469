-- ===== src/Lib.antt =====
-- Verification of nexabot, the backend of a Telegram assistant: its agent turns, conversations,
-- users and their persistence (src/nexabot, Python).
--
-- The parts, and the files that model them:
--
--   Domain.*       src/nexabot/domain: the error taxonomy (common/errors.py), the state machine of an
--                  agent run (agent/entities.py), the token budget (agent/context.py), conversations
--                  (conversations/entities.py) and users (identity/entities.py).
--   Ports.*        src/nexabot/ports: the values that cross the boundary to the model provider and to
--                  the repositories, and the check of the message window.
--   Database.*     src/nexabot/infrastructure/database: the tables with the constraints of models.py
--                  (Tables), the unit of work (UnitOfWork), and one module for each repository:
--                  Idempotency, Conversations, AgentRuns, Users.
--   Application.*  src/nexabot/application: the use cases. AgentTurn is RunAgentTurn of
--                  agent/use_cases.py: Command has the input and its validation, Request the request
--                  and the check of the response, Stored the stored result, Phases the phases up to
--                  the call of the provider, Finish the end of a turn, Settlement the settlement of a
--                  failure, Execute the whole.
--   Interfaces.*   src/nexabot/interfaces/api: the inbound request id and the middleware (RequestId,
--                  Middleware, of middleware.py), the caller of a protected route (security.py), the
--                  error handler (app.py) and the health routes (health.py).
--   Config.*       src/nexabot/config/settings.py: Settings is Settings.load, Parsing and Numerals its
--                  helpers, Required what production must be given, Redaction safe_summary.
--   Observability.* src/nexabot/observability: the trace context (context.py) and the redaction of log
--                  records (logging.py).
--   Bootstrap.*    src/nexabot/bootstrap: the start of the API process (main.py) and its readiness
--                  (container.py, with Database.Readiness for infrastructure/database/readiness.py).
--   Llm.*          src/nexabot/infrastructure/llm: the stub of the provider.
--   Migrations.*   migrations/versions: the revisions, up and down, on a schema (Foundation for 0001,
--                  Revisions for 0002 to 0005); Database.Metadata is the schema of models.py.
--   Exec           Python statements that change a state and may raise: a function from a state to a
--                  result beside the state. An exception keeps what was written before it.
--   Prelude        lists, options, strings and numbers that the parts share.
--
-- How the parts interact: a use case opens a transaction of the unit of work, which begins with what
-- other workers have committed, runs the calls of the repositories on the tables, and commits or puts
-- the database back as it was found. The agent turn uses three such transactions: one that claims
-- the idempotency key, one that stores the user's message and the started run, and one that stores
-- the answer, the finished run and the settled claim. A failure is settled in two more.
--
-- The world (Database.World) holds the database, and the clock, the UUIDs, the provider, the other
-- workers and the faults of a commit as arbitrary functions of how often they were asked. So what is
-- proved for all worlds covers every behaviour of theirs at the points where the code asks. A UUID
-- is a number, an instant is a number of microseconds, and a JSON object is a list of entries. Entity
-- methods take the UUIDs and instants that the code draws inside them as arguments; an entity that
-- raises is left as it was. A constructed value has passed the checks of its constructor.
--
-- Database.Idempotency.Interleaving has what a transaction of one worker does not show: any number of
-- workers on one key, each SQL statement an atomic step, in any order, with a worker free to stop
-- anywhere. It uses the same statements as the repository (Database.Idempotency.Statements).
--
-- The other files of a component are named for what they prove of it: Lifecycle, Budget, Atomicity,
-- Claims, Granting, Saving, Reading, Replay, Outcome and so on. In AgentTurn, Answering follows a turn
-- to its answer, part by part (Granting, Authority, Closing), and Repetition the request that comes
-- again. Silence and Calm have the operations that send nothing to the provider. Tests applies each property to concrete inputs.
--
-- No fuel is used: every loop of the modelled code runs over a list.
--
-- Not modelled: the failure of a single SQL statement other than by a constraint (a commit may fail),
-- the column updated_at of the idempotency records and the reading of the clock for it, the text that
-- str() makes of a stored value that is no text (no result that the code stores has one), the choice
-- of a formatter in configure_logging (only the JSON formatter redacts; the console formatter does not),
-- the calls of the logger and of FastAPI and uvicorn, what a migration does
-- to rows, and SQLAlchemy, pydantic and asyncio themselves. The provider, urllib.parse, the probe
-- of the database and the application behind the middleware are parameters. A cancellation is modelled
-- where the provider, a commit or the probe raises it.
pub mod Prelude
pub mod Exec
pub mod Domain
pub mod Ports
pub mod Database
pub mod Application
pub mod Bootstrap
pub mod Config
pub mod Interfaces
pub mod Llm
pub mod Migrations
pub mod Observability
pub mod Tests
