-- ===== src/Db/Migrations/CreateSchedulePlanTables.antt =====
-- alembic/versions/20260531_0004_create_schedule_plan_tables.py
use uav_dag_offload_platform.Common.{true, false, some, List, [], ◌∷◌}
use uav_dag_offload_platform.Db.Migrations.Operations.{
  Operation, Revision, uuid, string, text, integer, numeric, datetime_tz, json, no_default, now,
  column, is_in, at_least, null_or, ascending, descending, check, primary_key, unique, foreign_key,
  create_table, drop_table, create_index, drop_index,
}

abbrev upgrade_create_schedule_plan_tables : List Operation
upgrade_create_schedule_plan_tables =
    create_table "schedule_plans"
      (column "id" uuid false no_default
        ∷ column "task_id" uuid false no_default
        ∷ column "strategy_name" (string 64) false no_default
        ∷ column "status" (string 16) false no_default
        ∷ column "estimated_total_duration_ms" integer true no_default
        ∷ column "estimated_total_energy" (numeric 14 4) true no_default
        ∷ column "options" json false no_default
        ∷ column "created_at" datetime_tz false now
        ∷ column "applied_at" datetime_tz true no_default
        ∷ [])
      (check "ck_schedule_plans_strategy_name"
          (is_in "strategy_name" ("local_only" ∷ "random_offload" ∷ "greedy" ∷ []))
        ∷ check "ck_schedule_plans_status"
            (is_in "status" ("GENERATED" ∷ "APPLIED" ∷ "CANCELED" ∷ []))
        ∷ check "ck_schedule_plans_duration_non_negative"
            (null_or "estimated_total_duration_ms" (at_least "estimated_total_duration_ms" 0))
        ∷ check "ck_schedule_plans_energy_non_negative"
            (null_or "estimated_total_energy" (at_least "estimated_total_energy" 0))
        ∷ foreign_key ("task_id" ∷ []) ("dag_tasks.id" ∷ [])
        ∷ primary_key ("id" ∷ [])
        ∷ [])
    ∷ create_index "ix_schedule_plans_task_id" "schedule_plans" (ascending "task_id" ∷ [])
    ∷ create_index "idx_schedule_plans_task_created" "schedule_plans"
        (ascending "task_id" ∷ descending "created_at" ∷ [])
    ∷ create_index "idx_schedule_plans_strategy" "schedule_plans" (ascending "strategy_name" ∷ [])
    ∷ create_table "schedule_plan_items"
        (column "id" uuid false no_default
          ∷ column "plan_id" uuid false no_default
          ∷ column "subtask_id" uuid false no_default
          ∷ column "assigned_node_id" uuid false no_default
          ∷ column "estimated_compute_duration_ms" integer true no_default
          ∷ column "estimated_transfer_duration_ms" integer true no_default
          ∷ column "estimated_energy" (numeric 14 4) true no_default
          ∷ column "decision_reason" text true no_default
          ∷ column "created_at" datetime_tz false now
          ∷ [])
        (check "ck_schedule_items_compute_duration_non_negative"
            (null_or "estimated_compute_duration_ms" (at_least "estimated_compute_duration_ms" 0))
          ∷ check "ck_schedule_items_transfer_duration_non_negative" (
              null_or "estimated_transfer_duration_ms"
                (at_least "estimated_transfer_duration_ms" 0))
          ∷ check "ck_schedule_items_energy_non_negative"
              (null_or "estimated_energy" (at_least "estimated_energy" 0))
          ∷ foreign_key ("assigned_node_id" ∷ []) ("nodes.id" ∷ [])
          ∷ foreign_key ("plan_id" ∷ []) ("schedule_plans.id" ∷ [])
          ∷ foreign_key ("subtask_id" ∷ []) ("dag_subtasks.id" ∷ [])
          ∷ primary_key ("id" ∷ [])
          ∷ unique "uq_schedule_items_plan_subtask" ("plan_id" ∷ "subtask_id" ∷ [])
          ∷ [])
    ∷ create_index "ix_schedule_plan_items_plan_id" "schedule_plan_items" (ascending "plan_id" ∷ [])
    ∷ create_index "ix_schedule_plan_items_subtask_id" "schedule_plan_items"
        (ascending "subtask_id" ∷ [])
    ∷ create_index "ix_schedule_plan_items_assigned_node_id" "schedule_plan_items"
        (ascending "assigned_node_id" ∷ [])
    ∷ create_index "idx_schedule_items_plan" "schedule_plan_items" (ascending "plan_id" ∷ [])
    ∷ create_index "idx_schedule_items_subtask" "schedule_plan_items" (ascending "subtask_id" ∷ [])
    ∷ create_index "idx_schedule_items_node" "schedule_plan_items"
        (ascending "assigned_node_id" ∷ [])
    ∷ []

abbrev downgrade_create_schedule_plan_tables : List Operation
downgrade_create_schedule_plan_tables =
    drop_index "idx_schedule_items_node" "schedule_plan_items"
    ∷ drop_index "idx_schedule_items_subtask" "schedule_plan_items"
    ∷ drop_index "idx_schedule_items_plan" "schedule_plan_items"
    ∷ drop_index "ix_schedule_plan_items_assigned_node_id" "schedule_plan_items"
    ∷ drop_index "ix_schedule_plan_items_subtask_id" "schedule_plan_items"
    ∷ drop_index "ix_schedule_plan_items_plan_id" "schedule_plan_items"
    ∷ drop_table "schedule_plan_items"
    ∷ drop_index "idx_schedule_plans_strategy" "schedule_plans"
    ∷ drop_index "idx_schedule_plans_task_created" "schedule_plans"
    ∷ drop_index "ix_schedule_plans_task_id" "schedule_plans"
    ∷ drop_table "schedule_plans"
    ∷ []

abbrev pub create_schedule_plan_tables : Revision
create_schedule_plan_tables = record {
  revision = "20260531_0004";
  down_revision = some "20260526_0003";
  upgrade = upgrade_create_schedule_plan_tables;
  downgrade = downgrade_create_schedule_plan_tables;
}
