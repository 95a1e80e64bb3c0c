-- ===== src/Db/Migrations/AddSubtaskExecutionConstraint.antt =====
-- alembic/versions/20260526_0003_add_subtask_execution_constraint.py
use uav_dag_offload_platform.Common.{false, some, List, [], ◌∷◌}
use uav_dag_offload_platform.Db.Migrations.Operations.{
  Operation, Revision, string, no_default, constant, column, is_in, add_column, drop_column,
  create_check, drop_check, alter_server_default,
}

abbrev upgrade_add_subtask_execution_constraint : List Operation
upgrade_add_subtask_execution_constraint =
    add_column "dag_subtasks"
      (column "execution_constraint" (string 16) false (constant "OFFLOADABLE"))
    ∷ create_check "ck_dag_subtasks_execution_constraint" "dag_subtasks"
        (is_in "execution_constraint" ("OFFLOADABLE" ∷ "LOCAL_ONLY" ∷ "EDGE_ONLY" ∷ []))
    ∷ alter_server_default "dag_subtasks" "execution_constraint" no_default
    ∷ []

abbrev downgrade_add_subtask_execution_constraint : List Operation
downgrade_add_subtask_execution_constraint =
    drop_check "ck_dag_subtasks_execution_constraint" "dag_subtasks"
    ∷ drop_column "dag_subtasks" "execution_constraint"
    ∷ []

abbrev pub add_subtask_execution_constraint : Revision
add_subtask_execution_constraint = record {
  revision = "20260526_0003";
  down_revision = some "20260524_0002";
  upgrade = upgrade_add_subtask_execution_constraint;
  downgrade = downgrade_add_subtask_execution_constraint;
}
