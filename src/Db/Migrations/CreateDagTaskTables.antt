-- ===== src/Db/Migrations/CreateDagTaskTables.antt =====
-- alembic/versions/20260524_0002_create_dag_task_tables.py
use uav_dag_offload_platform.Common.{true, false, some, List, [], ◌∷◌}
use uav_dag_offload_platform.Db.Migrations.Operations.{
  Operation, Revision, uuid, string, text, integer, numeric, datetime_tz, json, no_default, now,
  column, is_in, positive, at_least, differs, ascending, descending, check, primary_key, unique,
  foreign_key, create_table, drop_table, create_index, drop_index,
}

abbrev upgrade_create_dag_task_tables : List Operation
upgrade_create_dag_task_tables =
    create_table "dag_tasks"
      (column "id" uuid false no_default
        ∷ column "name" (string 128) false no_default
        ∷ column "status" (string 16) false no_default
        ∷ column "priority" integer false no_default
        ∷ column "deadline_at" datetime_tz true no_default
        ∷ column "submitted_by" (string 128) true no_default
        ∷ column "failure_reason" text true no_default
        ∷ column "metadata" json false no_default
        ∷ column "created_at" datetime_tz false now
        ∷ column "updated_at" datetime_tz false now
        ∷ column "scheduled_at" datetime_tz true no_default
        ∷ column "started_at" datetime_tz true no_default
        ∷ column "finished_at" datetime_tz true no_default
        ∷ [])
      (check "ck_dag_tasks_status" (
          is_in "status"
            ("PENDING" ∷ "SCHEDULED" ∷ "RUNNING" ∷ "SUCCESS" ∷ "FAILED" ∷ "CANCELED" ∷ []))
        ∷ check "ck_dag_tasks_priority_non_negative" (at_least "priority" 0)
        ∷ primary_key ("id" ∷ [])
        ∷ [])
    ∷ create_index "idx_dag_tasks_status" "dag_tasks" (ascending "status" ∷ [])
    ∷ create_index "idx_dag_tasks_created_at" "dag_tasks" (descending "created_at" ∷ [])
    ∷ create_index "idx_dag_tasks_priority_status" "dag_tasks"
        (descending "priority" ∷ ascending "status" ∷ [])
    ∷ create_table "dag_subtasks"
        (column "id" uuid false no_default
          ∷ column "task_id" uuid false no_default
          ∷ column "external_id" (string 64) false no_default
          ∷ column "name" (string 128) false no_default
          ∷ column "status" (string 16) false no_default
          ∷ column "compute_load" (numeric 12 2) false no_default
          ∷ column "input_data_size_mb" (numeric 12 2) false no_default
          ∷ column "output_data_size_mb" (numeric 12 2) false no_default
          ∷ column "max_retries" integer false no_default
          ∷ column "retry_count" integer false no_default
          ∷ column "failure_reason" text true no_default
          ∷ column "metadata" json false no_default
          ∷ column "created_at" datetime_tz false now
          ∷ column "updated_at" datetime_tz false now
          ∷ column "started_at" datetime_tz true no_default
          ∷ column "finished_at" datetime_tz true no_default
          ∷ [])
        (check "ck_dag_subtasks_status" (
            is_in "status" (
              "WAITING" ∷ "READY" ∷ "DISPATCHED" ∷ "RUNNING" ∷ "SUCCESS" ∷ "FAILED" ∷ "RETRYING"
              ∷ []))
          ∷ check "ck_dag_subtasks_compute_load_positive" (positive "compute_load")
          ∷ check "ck_dag_subtasks_input_non_negative" (at_least "input_data_size_mb" 0)
          ∷ check "ck_dag_subtasks_output_non_negative" (at_least "output_data_size_mb" 0)
          ∷ check "ck_dag_subtasks_max_retries_non_negative" (at_least "max_retries" 0)
          ∷ check "ck_dag_subtasks_retry_count_non_negative" (at_least "retry_count" 0)
          ∷ foreign_key ("task_id" ∷ []) ("dag_tasks.id" ∷ [])
          ∷ primary_key ("id" ∷ [])
          ∷ unique "uq_dag_subtasks_task_external" ("task_id" ∷ "external_id" ∷ [])
          ∷ [])
    ∷ create_index "ix_dag_subtasks_task_id" "dag_subtasks" (ascending "task_id" ∷ [])
    ∷ create_index "idx_dag_subtasks_task_status" "dag_subtasks"
        (ascending "task_id" ∷ ascending "status" ∷ [])
    ∷ create_index "idx_dag_subtasks_task_external" "dag_subtasks"
        (ascending "task_id" ∷ ascending "external_id" ∷ [])
    ∷ create_table "dag_dependencies"
        (column "id" uuid false no_default
          ∷ column "task_id" uuid false no_default
          ∷ column "predecessor_subtask_id" uuid false no_default
          ∷ column "successor_subtask_id" uuid false no_default
          ∷ column "created_at" datetime_tz false now
          ∷ [])
        (check "ck_dag_dependencies_not_self"
            (differs "predecessor_subtask_id" "successor_subtask_id")
          ∷ foreign_key ("predecessor_subtask_id" ∷ []) ("dag_subtasks.id" ∷ [])
          ∷ foreign_key ("successor_subtask_id" ∷ []) ("dag_subtasks.id" ∷ [])
          ∷ foreign_key ("task_id" ∷ []) ("dag_tasks.id" ∷ [])
          ∷ primary_key ("id" ∷ [])
          ∷ unique "uq_dag_dependencies_task_edge"
              ("task_id" ∷ "predecessor_subtask_id" ∷ "successor_subtask_id" ∷ [])
          ∷ [])
    ∷ create_index "ix_dag_dependencies_task_id" "dag_dependencies" (ascending "task_id" ∷ [])
    ∷ create_index "ix_dag_dependencies_predecessor_subtask_id" "dag_dependencies"
        (ascending "predecessor_subtask_id" ∷ [])
    ∷ create_index "ix_dag_dependencies_successor_subtask_id" "dag_dependencies"
        (ascending "successor_subtask_id" ∷ [])
    ∷ create_index "idx_dag_dependencies_task" "dag_dependencies" (ascending "task_id" ∷ [])
    ∷ create_index "idx_dag_dependencies_predecessor" "dag_dependencies"
        (ascending "predecessor_subtask_id" ∷ [])
    ∷ create_index "idx_dag_dependencies_successor" "dag_dependencies"
        (ascending "successor_subtask_id" ∷ [])
    ∷ []

abbrev downgrade_create_dag_task_tables : List Operation
downgrade_create_dag_task_tables =
    drop_index "idx_dag_dependencies_successor" "dag_dependencies"
    ∷ drop_index "idx_dag_dependencies_predecessor" "dag_dependencies"
    ∷ drop_index "idx_dag_dependencies_task" "dag_dependencies"
    ∷ drop_index "ix_dag_dependencies_successor_subtask_id" "dag_dependencies"
    ∷ drop_index "ix_dag_dependencies_predecessor_subtask_id" "dag_dependencies"
    ∷ drop_index "ix_dag_dependencies_task_id" "dag_dependencies"
    ∷ drop_table "dag_dependencies"
    ∷ drop_index "idx_dag_subtasks_task_external" "dag_subtasks"
    ∷ drop_index "idx_dag_subtasks_task_status" "dag_subtasks"
    ∷ drop_index "ix_dag_subtasks_task_id" "dag_subtasks"
    ∷ drop_table "dag_subtasks"
    ∷ drop_index "idx_dag_tasks_priority_status" "dag_tasks"
    ∷ drop_index "idx_dag_tasks_created_at" "dag_tasks"
    ∷ drop_index "idx_dag_tasks_status" "dag_tasks"
    ∷ drop_table "dag_tasks"
    ∷ []

abbrev pub create_dag_task_tables : Revision
create_dag_task_tables = record {
  revision = "20260524_0002";
  down_revision = some "20260521_0001";
  upgrade = upgrade_create_dag_task_tables;
  downgrade = downgrade_create_dag_task_tables;
}
