-- ===== src/Services/Dispatch.antt =====
-- app/services/execution_dispatcher.py, and `execute_task` of app/api/v1/endpoints/tasks.py, which starts a
-- plan, commits, enqueues its executions and commits their Celery ids. `execute_subtask.delay` is Celery's: a
-- parameter, which for an execution returns the id of its message, or raises.
pub mod Started
pub mod Queued
use uav_dag_offload_platform.Common.{
  ℕ, String, Bool, true, false, Option, none, some, List, [], ◌∷◌, map, length,
}
use uav_dag_offload_platform.Core.Errors.{Exec, Result, ok, raised, Exception, ◌>>=◌, for_each}
use uav_dag_offload_platform.Domain.Enums.{ExecutionStatus, TaskStatus}
use uav_dag_offload_platform.Db.Models.{Uuid, Datetime}
use uav_dag_offload_platform.Db.Store.{Store}
use uav_dag_offload_platform.Services.Execution.{
  ExecutionStartResult, ExecutionDispatchRegistration, start_execution, record_celery_task_ids,
}

pub record ExecutionDispatchResult : Type 0 where
  pub execution_id : Uuid
  pub celery_task_id : String

pub record ExecutionSimulationOptions : Type 0 where
  pub result_status : ExecutionStatus
  pub duration_ms : Option ℕ
  pub output_summary : Option String
  pub failure_reason : Option String

pub record ExecutionStartRequest : Type 0 where
  pub schedule_plan_id : Uuid
  pub simulation : Option ExecutionSimulationOptions

pub record ExecutionStartResponse : Type 0 where
  pub task_id : Uuid
  pub schedule_plan_id : Uuid
  pub status : TaskStatus
  pub execution_count : ℕ
  pub execution_ids : List Uuid
  pub queued_count : ℕ

-- The keyword arguments of `delay` where a request has no simulation.
abbrev default_simulation : ExecutionSimulationOptions
default_simulation = record {
  result_status = ExecutionStatus.success;
  duration_ms = none;
  output_summary = none;
  failure_reason = none;
}

unfoldable pub simulation_of : ExecutionStartRequest → ExecutionSimulationOptions
simulation_of payload = elim payload.simulation [
  | none ↦ default_simulation
  | some simulation ↦ simulation
]

abbrev dispatched :
    Uuid
    → Result String
    → Result (List ExecutionDispatchResult)
    → Result (List ExecutionDispatchResult)
dispatched execution_id (raised e) rest = raised e
dispatched execution_id (ok celery_task_id) (raised e) = raised e
dispatched execution_id (ok celery_task_id) (ok rest) =
    ok (record { execution_id = execution_id; celery_task_id = celery_task_id } ∷ rest)

abbrev pub registration : ExecutionDispatchResult → ExecutionDispatchRegistration
registration item = record {
  execution_id = item.execution_id;
  celery_task_id = item.celery_task_id;
}

module _ (auto_enqueue_enabled : Bool)
    (delay : Uuid → ExecutionSimulationOptions → Result String) where
  unfoldable pub enqueue_each :
      List Uuid → ExecutionSimulationOptions → Result (List ExecutionDispatchResult)
  enqueue_each [] simulation = ok []
  enqueue_each (execution_id ∷ ids) simulation =
      let rest = enqueue_each ids simulation in
      dispatched execution_id (delay execution_id simulation) rest

  unfoldable pub enqueue_started_executions :
      List Uuid → ExecutionSimulationOptions → Result (List ExecutionDispatchResult)
  unfolding enqueue_each
  enqueue_started_executions execution_ids simulation = elim auto_enqueue_enabled [
    | true ↦ enqueue_each execution_ids simulation
    | false ↦ ok []
  ]

  abbrev response : ExecutionStartResult → List ExecutionDispatchResult → ExecutionStartResponse
  response result dispatch_results = record {
    task_id = result.task_id;
    schedule_plan_id = result.schedule_plan_id;
    status = result.status;
    execution_count = result.execution_count;
    execution_ids = result.execution_ids;
    queued_count = length dispatch_results;
  }

  -- What follows the first commit, on the database as that commit left it.
  unfoldable pub after_start :
      ExecutionStartRequest → ExecutionStartResult → Exec Store ExecutionStartResponse
  unfolding enqueue_started_executions record_celery_task_ids simulation_of
  after_start payload result s =
      elim (enqueue_started_executions result.execution_ids (simulation_of payload)) [
        | raised e ↦ (raised e, s)
        | ok dispatch_results ↦ (
          ok (response result dispatch_results),
          (record_celery_task_ids (map registration dispatch_results) s).1,
        )
      ]

  abbrev with_rollback :
      Store
      → ExecutionStartRequest
      → Result ExecutionStartResult × Store
      → Result ExecutionStartResponse × Store
  with_rollback before payload (raised e, s) = (raised e, before)
  with_rollback before payload (ok result, s) = after_start payload result s

  -- The answer and the database after the request: an exception before the first commit rolls all
  -- changes back, one after it does not.
  unfoldable pub execute_task :
      Datetime → Uuid → ExecutionStartRequest → Store → Result ExecutionStartResponse × Store
  unfolding start_execution after_start
  execute_task now task_id payload s =
      with_rollback s payload (start_execution now task_id payload.schedule_plan_id s)
