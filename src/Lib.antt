-- ===== src/Lib.antt =====
-- Verification of the worker template: a TaskIQ worker that tracks its tasks in a database.
--
-- The program. A message on the broker's queue names a row of the table `task_execution`. While the
-- worker runs the message's task it calls the hooks of its middleware: `pre_execute` before the task,
-- `on_error` when the task raises, and `post_execute` with the result. `StateTrackingMiddleware` keeps
-- the row's status with them, decides about retries, enqueues a retried message again, writes an audit
-- row to `task_attempt` for each such decision, and announces each change of a status over Socket.IO.
-- Every hook runs under `db_retry`, which runs it again, three times in all, after an
-- `OperationalError` of the database.
--
-- The files, with paths from the repository's root:
--   Prelude, Text, Exec: Boolean tests and lists, Python's text operations, and actions over a state
--     that return or raise; Exec/Holds has the rules for what an action keeps.
--   Models: the rows of worker_template/models/task_execution.py and task_attempt.py.
--   Message: what TaskIQ hands to the middleware.  Config: worker_template/core/config.py.
--     Config/Validated is about `validate_config`.
--   Realtime: worker_template/realtime/contracts.py.
--   World: the state that all parts share, and the calls of external services.
--   Services/TaskExecutionService, Services/TaskAttemptService: the files of the same names under
--     worker_template/services. Listing and Updates are about the functions so named.
--   Retry: worker_template/db/retry.py. Retry/Limit has the rules for an action under `db_retry`.
--   StateTracking: worker_template/middleware/state_tracking.py. Extract, Gate, Events,
--     Decision, Recording and Handlers are its methods; Announcement has the events of the
--     contracts, and Emission what of them is sent; each private method has its name without the
--     underscore, and a part of a method that has a name of its own stands next to it. Lifecycle
--     runs sequences of hooks. Sound, Sends, Calm and Flaky are about what the hooks do: under
--     any faults, to the queue, without faults, and after a lost reply or a broker's refusal.
--     Spec is the life of a task without its machinery; Spec/Refined compares the hooks with it,
--     and Spec/Later is about what they never undo. Drive follows a task over its deliveries:
--     Started, Delivery, LastDelivery and Completion are about one delivery, Ends and Completed
--     about all of them.
--   Session: worker_template/db/session.py, with Pools and RolledBack for what it makes of the settings
--     and of a failed block.  WorkerProcess: worker_template/worker.py, with Started.
--   Wiring: worker_template/broker.py, scheduler.py and health_server.py, with Imported for what their
--     imports make of loaded settings.
--   Migrations: the two files of alembic/versions. Ddl has the schema and the operations of Alembic,
--     Framed their effect beside other objects, RoundTrip the upgrades and downgrades, and Values what
--     the columns take. Environment is alembic/env.py, with Online for a run from the command line and
--     Versioned for the table of revisions. Databases has transactions on databases by their URLs.
--   Metadata: what SQLModel and SQLAlchemy make of declared tables. Declared has the declarations of
--     worker_template/models and `init_db` of worker_template/db/session.py, and Agreement compares
--     them with the migrations.
--   PostGeneration: _tasks.py, with Kept for what it keeps under failures and Ended for a whole run.
--   Emitter: worker_template/realtime/emitter.py, with SafeUrl and Closed for what its functions do.
--   ExampleTask: `dispatch_example_task` of worker_template/tasks/example_task.py, with its input of
--     worker_template/tasks/contracts.py. Tracked is about the messages that it sends, and Body is the
--     task itself.
--   Middleware: worker_template/middleware/tenant.py, logging_mw.py and metrics_mw.py, over the context
--     variables of worker_template/core/tenants.py and core/logging.py and the metrics of
--     worker_template/core/metrics.py. Tenant/Agreement compares tenants with state tracking, and
--     Metrics/Drift adds up a history of tasks. Integer has the values of the gauge. Stack has the order
--     of middleware/__init__.py, with Logged for what a task leaves in the log, and LogContext the
--     functions of core/logging.py that log.
--   Tests: examples at concrete inputs.
--
-- The state. `World` has the committed tables, the tables as the session at hand sees them, the
-- messages that the broker has accepted, the events that Socket.IO has sent, the `_OnErrorAttempt` and
-- the result object of the invocation, and a schedule. The schedule is a list of outcomes, one for each
-- call of an external service to come: the call takes effect; it raises without effect; or it takes
-- effect and raises all the same, as a commit does when its reply is lost. A call beyond the end of
-- the schedule succeeds. A theorem for every world is thus a theorem for every sequence of faults. A
-- session starts from the committed tables, and what it does not commit is gone.
--
-- What is assumed. `Env` has what the program reads from elsewhere: the settings, the conversion of
-- texts and UUIDs, the server's identifiers, and the clock. `Tenacity` is the interface of the retry
-- library: the laws are its documented behaviour for `retry_if_exception_type(OperationalError)`,
-- `stop_after_attempt` and `reraise`. Nobody else writes the rows of a task during a hook. Rows whose
-- `created_at` is the same come in the order in which they were written. An `OperationalError` is
-- told apart from all other exceptions, which are one case; `CancelledError` is not modelled. UUIDs,
-- instants and counters are natural numbers, so the bounds of the database's integers are left out.
--
-- A task that raises has `on_error` called before `post_execute`, as TaskIQ's receiver does;
-- Metrics/Drift depends on it, Middleware/Stack has that order for the other middlewares, and it is
-- a law of `Receiver`, the interface of a worker in StateTracking/Drive, whose queue hands over the
-- oldest message first. A message passes through JSON on its way to the worker: `Json` of
-- Message/Json is the interface of what becomes of its values, where a UUID arrives as its text.
-- The readings of the monotonic clock are parameters of Metrics. What TaskIQ gives a dispatched
-- message, its id and the task's registered name, is the `Registry` of ExampleTask.
--
-- The operations of Alembic on a schema are those of PostgreSQL, which raise where a name is taken
-- or missing; `create_table` creates the types of the table's enumerations without a check, but for
-- those with `create_type=False`, and `drop_table` leaves types alone. An engine and a session
-- factory are the arguments that SQLAlchemy is given, and `EngineLibrary` of Session is the
-- interface of `create_async_engine`, which may refuse them and refuses an empty URL.
-- `ManagerLibrary` of Emitter is that of Socket.IO's Redis manager, which may refuse its URL.
-- `SqlModel` and `Sqlalchemy` of Metadata are the interfaces of the columns that a field gives and
-- of `create_all`, which creates what is missing, the indexes of a table in no particular order.
-- `OptionParser` is that of the parser of Alembic's option file, which keeps a text without a `%`,
-- and `Alembic` that of its migration context, which creates the table `alembic_version` before the
-- first migration; what it does in a database that has the table is left open.
--
-- No definition runs on fuel but `str_nat`, whose `n + 1` rounds are more than the digits of `n`, and
-- `drive`, which makes a given number of a worker's steps.
--
-- Not modelled: debug records of the log and those of the services, the sessions and the retries, the
-- waits between retries, what TaskIQ and FastAPI do with the objects that the program makes of them,
-- and pydantic's validation of a task's input.
pub mod Prelude
pub mod Text
pub mod Exec
pub mod Integer
pub mod Models
pub mod Message
pub mod Config
pub mod Realtime
pub mod World
pub mod Session
pub mod Emitter
pub mod Wiring
pub mod WorkerProcess
pub mod Migrations
pub mod Metadata
pub mod PostGeneration
pub mod Services
pub mod Retry
pub mod StateTracking
pub mod ExampleTask
pub mod Middleware
pub mod Tests
