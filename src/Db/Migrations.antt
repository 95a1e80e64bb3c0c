-- ===== src/Db/Migrations.antt =====
-- alembic/versions: the revisions of the database schema, from the first to the last.
pub mod Operations
pub mod CreateNodeTables
pub mod CreateDagTaskTables
pub mod AddSubtaskExecutionConstraint
pub mod CreateSchedulePlanTables
pub mod CreateExecutionRecords
pub mod AddCanceledSubtaskStatus
pub mod CreateWorkerHeartbeats
pub mod AddExecutionCeleryTaskId
pub mod CreateExecutionRevokeEvents
pub mod CreateWorkerAlerts
pub mod Schema
pub mod Reversal
pub mod Checks
use uav_dag_offload_platform.Common.{List, [], ◌∷◌}
use uav_dag_offload_platform.Db.Migrations.Operations.{Revision}
use uav_dag_offload_platform.Db.Migrations.CreateNodeTables.{create_node_tables}
use uav_dag_offload_platform.Db.Migrations.CreateDagTaskTables.{create_dag_task_tables}
use uav_dag_offload_platform.Db.Migrations.AddSubtaskExecutionConstraint.{
  add_subtask_execution_constraint,
}
use uav_dag_offload_platform.Db.Migrations.CreateSchedulePlanTables.{create_schedule_plan_tables}
use uav_dag_offload_platform.Db.Migrations.CreateExecutionRecords.{create_execution_records}
use uav_dag_offload_platform.Db.Migrations.AddCanceledSubtaskStatus.{add_canceled_subtask_status}
use uav_dag_offload_platform.Db.Migrations.CreateWorkerHeartbeats.{create_worker_heartbeats}
use uav_dag_offload_platform.Db.Migrations.AddExecutionCeleryTaskId.{add_execution_celery_task_id}
use uav_dag_offload_platform.Db.Migrations.CreateExecutionRevokeEvents.{
  create_execution_revoke_events,
}
use uav_dag_offload_platform.Db.Migrations.CreateWorkerAlerts.{create_worker_alerts}

abbrev pub revisions : List Revision
revisions =
    create_node_tables ∷ create_dag_task_tables ∷ add_subtask_execution_constraint
    ∷ create_schedule_plan_tables ∷ create_execution_records ∷ add_canceled_subtask_status
    ∷ create_worker_heartbeats ∷ add_execution_celery_task_id ∷ create_execution_revoke_events
    ∷ create_worker_alerts ∷ []
