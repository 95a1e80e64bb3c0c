-- ===== src/Examples/Dispatch.antt =====
-- `execute_task` of app/api/v1/endpoints/tasks.py on the small store.
use uav_dag_offload_platform.Common.{◌≡◌, refl, String, true, none, [], ◌∷◌}
use uav_dag_offload_platform.Core.Errors.{Result, ok, raised, Exception}
use uav_dag_offload_platform.Domain.Dag.{contains}
use uav_dag_offload_platform.Db.Models.{Uuid}
use uav_dag_offload_platform.Db.Store.{Store}
use uav_dag_offload_platform.Services.Dispatch.{
  ExecutionSimulationOptions, ExecutionStartRequest, ExecutionStartResponse, execute_task,
}
use uav_dag_offload_platform.Services.Dispatch.Started.{AddsNew}
use uav_dag_offload_platform.Services.Dispatch.Queued.{
  IsQueued, execute_task-IsQueued, execute_task-broker_failure,
}
use uav_dag_offload_platform.Examples.Execution.{start_result, start_runs}
use uav_dag_offload_platform.Examples.Stores.{planned}

abbrev payload : ExecutionStartRequest
payload = record { schedule_plan_id = 5; simulation = none }

abbrev obliging : Uuid → ExecutionSimulationOptions → Result String
obliging e simulation = ok "message"

abbrev refusing : Uuid → ExecutionSimulationOptions → Result String
refusing e simulation = raised Exception.overflow_error

execute_task-IsQueued_example :
    (b : ExecutionStartResponse) × (s2 : Store) × (execute_task true obliging 20 1 payload planned
      ≡ (ok b, s2))
    × (b.execution_ids ≡ 8 ∷ [])
    × IsQueued (λ e. "message") b s2
unfolding start_result
execute_task-IsQueued_example =
    execute_task-IsQueued obliging payload (λ e. "message") 20 1 planned start_result.1
      start_result.0 (λ e. refl) start_runs

execute_task-broker_failure_example :
    (y : Exception) × (execute_task true refusing 20 1 payload planned ≡ (raised y, start_result.1))
    × AddsNew planned start_result.1 start_result.0
unfolding start_result contains
execute_task-broker_failure_example =
    execute_task-broker_failure refusing payload 20 1 8 Exception.overflow_error planned
      start_result.1 start_result.0 refl refl start_runs
