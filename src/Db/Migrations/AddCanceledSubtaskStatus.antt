-- ===== src/Db/Migrations/AddCanceledSubtaskStatus.antt =====
-- alembic/versions/20260610_0006_add_canceled_subtask_status.py
use uav_dag_offload_platform.Common.{some, List, [], ◌∷◌}
use uav_dag_offload_platform.Db.Migrations.Operations.{
  Operation, Revision, is_in, create_check, drop_check,
}

abbrev upgrade_add_canceled_subtask_status : List Operation
upgrade_add_canceled_subtask_status =
    drop_check "ck_dag_subtasks_status" "dag_subtasks"
    ∷ create_check "ck_dag_subtasks_status" "dag_subtasks" (
        is_in "status" (
          "WAITING" ∷ "READY" ∷ "DISPATCHED" ∷ "RUNNING" ∷ "SUCCESS" ∷ "FAILED" ∷ "RETRYING"
          ∷ "CANCELED" ∷ []))
    ∷ []

abbrev downgrade_add_canceled_subtask_status : List Operation
downgrade_add_canceled_subtask_status =
    drop_check "ck_dag_subtasks_status" "dag_subtasks"
    ∷ create_check "ck_dag_subtasks_status" "dag_subtasks" (
        is_in "status"
          ("WAITING" ∷ "READY" ∷ "DISPATCHED" ∷ "RUNNING" ∷ "SUCCESS" ∷ "FAILED" ∷ "RETRYING" ∷ []))
    ∷ []

abbrev pub add_canceled_subtask_status : Revision
add_canceled_subtask_status = record {
  revision = "20260610_0006";
  down_revision = some "20260531_0005";
  upgrade = upgrade_add_canceled_subtask_status;
  downgrade = downgrade_add_canceled_subtask_status;
}
