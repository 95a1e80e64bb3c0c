-- ===== src/Db/Migrations/CreateExecutionRevokeEvents.antt =====
-- alembic/versions/20260623_0009_create_execution_revoke_events.py
use uav_dag_offload_platform.Common.{true, false, some, List, [], ◌∷◌}
use uav_dag_offload_platform.Db.Migrations.Operations.{
  Operation, Revision, uuid, string, text, datetime_tz, boolean, no_default, now, column, ascending,
  descending, primary_key, foreign_key, create_table, drop_table, create_index, drop_index,
}

abbrev upgrade_create_execution_revoke_events : List Operation
upgrade_create_execution_revoke_events =
    create_table "execution_revoke_events"
      (column "id" uuid false no_default
        ∷ column "task_id" uuid false no_default
        ∷ column "execution_id" uuid false no_default
        ∷ column "celery_task_id" (string 255) false no_default
        ∷ column "success" boolean false no_default
        ∷ column "error_message" text true no_default
        ∷ column "requested_at" datetime_tz false no_default
        ∷ column "created_at" datetime_tz false now
        ∷ [])
      (foreign_key ("execution_id" ∷ []) ("execution_records.id" ∷ [])
        ∷ foreign_key ("task_id" ∷ []) ("dag_tasks.id" ∷ [])
        ∷ primary_key ("id" ∷ [])
        ∷ [])
    ∷ create_index "idx_execution_revoke_events_task_id" "execution_revoke_events"
        (ascending "task_id" ∷ [])
    ∷ create_index "idx_execution_revoke_events_execution_id" "execution_revoke_events"
        (ascending "execution_id" ∷ [])
    ∷ create_index "idx_execution_revoke_events_celery_task_id" "execution_revoke_events"
        (ascending "celery_task_id" ∷ [])
    ∷ create_index "idx_execution_revoke_events_requested_at" "execution_revoke_events"
        (descending "requested_at" ∷ [])
    ∷ []

abbrev downgrade_create_execution_revoke_events : List Operation
downgrade_create_execution_revoke_events =
    drop_index "idx_execution_revoke_events_requested_at" "execution_revoke_events"
    ∷ drop_index "idx_execution_revoke_events_celery_task_id" "execution_revoke_events"
    ∷ drop_index "idx_execution_revoke_events_execution_id" "execution_revoke_events"
    ∷ drop_index "idx_execution_revoke_events_task_id" "execution_revoke_events"
    ∷ drop_table "execution_revoke_events"
    ∷ []

abbrev pub create_execution_revoke_events : Revision
create_execution_revoke_events = record {
  revision = "20260623_0009";
  down_revision = some "20260622_0008";
  upgrade = upgrade_create_execution_revoke_events;
  downgrade = downgrade_create_execution_revoke_events;
}
