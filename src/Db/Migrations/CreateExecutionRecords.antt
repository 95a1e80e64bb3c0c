-- ===== src/Db/Migrations/CreateExecutionRecords.antt =====
-- alembic/versions/20260531_0005_create_execution_records.py
use uav_dag_offload_platform.Common.{true, false, some, List, [], ◌∷◌}
use uav_dag_offload_platform.Db.Migrations.Operations.{
  Operation, Revision, uuid, string, text, integer, datetime_tz, no_default, now, column, is_in,
  at_least, null_or, ascending, check, primary_key, unique, foreign_key, create_table, drop_table,
  create_index, drop_index,
}

abbrev upgrade_create_execution_records : List Operation
upgrade_create_execution_records =
    create_table "execution_records"
      (column "id" uuid false no_default
        ∷ column "task_id" uuid false no_default
        ∷ column "subtask_id" uuid false no_default
        ∷ column "node_id" uuid false no_default
        ∷ column "plan_item_id" uuid true no_default
        ∷ column "attempt" integer false no_default
        ∷ column "status" (string 16) false no_default
        ∷ column "started_at" datetime_tz true no_default
        ∷ column "finished_at" datetime_tz true no_default
        ∷ column "duration_ms" integer true no_default
        ∷ column "output_summary" text true no_default
        ∷ column "failure_reason" text true no_default
        ∷ column "created_at" datetime_tz false now
        ∷ column "updated_at" datetime_tz false now
        ∷ [])
      (check "ck_execution_records_attempt_positive" (at_least "attempt" 1)
        ∷ check "ck_execution_records_status"
            (is_in "status" ("RUNNING" ∷ "SUCCESS" ∷ "FAILED" ∷ "TIMEOUT" ∷ "CANCELED" ∷ []))
        ∷ check "ck_execution_records_duration_non_negative"
            (null_or "duration_ms" (at_least "duration_ms" 0))
        ∷ foreign_key ("node_id" ∷ []) ("nodes.id" ∷ [])
        ∷ foreign_key ("plan_item_id" ∷ []) ("schedule_plan_items.id" ∷ [])
        ∷ foreign_key ("subtask_id" ∷ []) ("dag_subtasks.id" ∷ [])
        ∷ foreign_key ("task_id" ∷ []) ("dag_tasks.id" ∷ [])
        ∷ primary_key ("id" ∷ [])
        ∷ unique "uq_execution_subtask_attempt" ("subtask_id" ∷ "attempt" ∷ [])
        ∷ [])
    ∷ create_index "ix_execution_records_task_id" "execution_records" (ascending "task_id" ∷ [])
    ∷ create_index "ix_execution_records_subtask_id" "execution_records"
        (ascending "subtask_id" ∷ [])
    ∷ create_index "ix_execution_records_node_id" "execution_records" (ascending "node_id" ∷ [])
    ∷ create_index "ix_execution_records_plan_item_id" "execution_records"
        (ascending "plan_item_id" ∷ [])
    ∷ create_index "idx_execution_records_task" "execution_records" (ascending "task_id" ∷ [])
    ∷ create_index "idx_execution_records_subtask" "execution_records" (ascending "subtask_id" ∷ [])
    ∷ create_index "idx_execution_records_node" "execution_records" (ascending "node_id" ∷ [])
    ∷ create_index "idx_execution_records_status" "execution_records" (ascending "status" ∷ [])
    ∷ []

abbrev downgrade_create_execution_records : List Operation
downgrade_create_execution_records =
    drop_index "idx_execution_records_status" "execution_records"
    ∷ drop_index "idx_execution_records_node" "execution_records"
    ∷ drop_index "idx_execution_records_subtask" "execution_records"
    ∷ drop_index "idx_execution_records_task" "execution_records"
    ∷ drop_index "ix_execution_records_plan_item_id" "execution_records"
    ∷ drop_index "ix_execution_records_node_id" "execution_records"
    ∷ drop_index "ix_execution_records_subtask_id" "execution_records"
    ∷ drop_index "ix_execution_records_task_id" "execution_records"
    ∷ drop_table "execution_records"
    ∷ []

abbrev pub create_execution_records : Revision
create_execution_records = record {
  revision = "20260531_0005";
  down_revision = some "20260531_0004";
  upgrade = upgrade_create_execution_records;
  downgrade = downgrade_create_execution_records;
}
