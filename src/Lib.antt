-- ===== src/Lib.antt =====
-- The UAV task platform: an HTTP service that takes tasks made of subtasks with dependencies (a
-- DAG), plans the ready subtasks onto nodes, starts them, and moves the task on as workers report
-- results. This library models its core from the sources under app/ and proves what it relies on.
--
-- How the parts interact. Creating a task checks its graph (app/domain/dag.py) and stores its
-- subtasks, ready where nothing precedes them. A scheduling strategy (app/scheduler) assigns the
-- ready subtasks of a task to online nodes, and the plan is stored. Starting a plan moves its
-- subtasks to running, with one execution record each. A report for an execution ends the record
-- and moves the subtask and the task on; after a success the waiting successors become ready.
-- Cancelling a task ends its running executions and its unfinished subtasks. Every change of a
-- status asks the table of app/domain/state_machine.py.
--
-- Common: Boolean tests and equality on native numbers and strings, integers, lists.
-- Domain.Enums, Domain.StateMachine: app/domain/enums.py and state_machine.py. The table is keyed
--   by the texts of the statuses, as a dict of StrEnum members is.
-- Domain.Dag: validate_dag of app/domain/dag.py, a function of the same name. Its loop takes fuel:
--   the number of subtasks, since every round removes one from those that are left.
-- Db: app/db/models as records, tables as lists of rows, and Store, all tables of one session with
--   the next id. Db.Pages are the listings of app/repositories: order, offset, limit.
-- Core.Errors: AppError, and actions on the store that may raise. What was written before a raise
--   stays in the session; `committed` is what the database keeps.
-- Services.Tasks, Services.Execution, Services.Unlock, Services.Scheduling, Services.Nodes: the
--   classes of app/services under the names of their methods, with the repositories they call. A
--   write to a mapped object is `modify` at its id, so that all holders of the object see it.
-- Services.Scheduling.Comparison: compare_strategies.
-- Services.Order: the order of execution in a store, and that each of these operations keeps it.
-- Services.Dispatch: app/services/execution_dispatcher.py, and execute_task of
--   app/api/v1/endpoints/tasks.py with its two commits. Services.Listings: the listings of
--   app/repositories, and a task's detail as the endpoint answers it.
-- Services.Workers: app/worker/tasks.py with heartbeats and alerts; Services.Workers.Execute is
--   execute_subtask as a whole, with what other processes do meanwhile as a parameter. The wait for
--   a cancellation runs on fuel, in ticks: the whole time to wait, since each round waits a tick
--   at least. In the source its seconds are floats: that a subtraction rounds, or makes no progress
--   where the interval is tiny next to the whole time, is left out.
-- Services.Metrics: app/services/metrics_service.py.
-- Services.Queues: app/services/queue_monitoring_service.py, dead_letter_queue_service.py and
--   dead_letter_flow_verifier.py, with RabbitMQ's responses as a parameter (Core.Json is what they
--   hold). The polling loop runs on fuel: the ticks up to its deadline, and one round more.
-- Services.Monitoring: app/services/monitoring_service.py with its repository. The digits of a number
--   are written on fuel: the number itself, since every round divides it by ten.
-- Db.Migrations: alembic/versions, each revision as lists of operations. What an operation does to a
--   schema is an interface with laws.
-- Scheduler: app/scheduler, generic in the type of floats.
-- Examples: runs of the model on small inputs, and each theorem applied to one of them.
--
-- Ids and times are numbers, a decimal column the number of its last place. Floats are an interface
-- (Scheduler.Floats), and so are Python's Random, the order of a relationship in a task's detail, the order of node names, Celery's revoke, the
-- clock and the database's rounding: parameters of the definitions that use them. Texts of messages
-- and the columns that are only stored are left out.
--
-- Not modelled: the endpoints that only pass their arguments to a service, the field limits of the
-- request schemas, the URLs and headers of HTTP calls, and the configuration of libraries. Sessions
-- run one after the other: locks and concurrent requests are not part of the model, but for what other
-- processes do to the database while a worker waits.
pub mod Common
pub mod Domain
pub mod Db
pub mod Core
pub mod Scheduler
pub mod Services
pub mod Examples
