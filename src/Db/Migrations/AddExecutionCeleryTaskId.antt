-- ===== src/Db/Migrations/AddExecutionCeleryTaskId.antt =====
-- alembic/versions/20260622_0008_add_execution_celery_task_id.py
use uav_dag_offload_platform.Common.{true, some, List, [], ◌∷◌}
use uav_dag_offload_platform.Db.Migrations.Operations.{
  Operation, Revision, string, no_default, column, ascending, create_index, drop_index, add_column,
  drop_column,
}

abbrev upgrade_add_execution_celery_task_id : List Operation
upgrade_add_execution_celery_task_id =
    add_column "execution_records" (column "celery_task_id" (string 255) true no_default)
    ∷ create_index "idx_execution_records_celery_task_id" "execution_records"
        (ascending "celery_task_id" ∷ [])
    ∷ []

abbrev downgrade_add_execution_celery_task_id : List Operation
downgrade_add_execution_celery_task_id =
    drop_index "idx_execution_records_celery_task_id" "execution_records"
    ∷ drop_column "execution_records" "celery_task_id"
    ∷ []

abbrev pub add_execution_celery_task_id : Revision
add_execution_celery_task_id = record {
  revision = "20260622_0008";
  down_revision = some "20260622_0007";
  upgrade = upgrade_add_execution_celery_task_id;
  downgrade = downgrade_add_execution_celery_task_id;
}
