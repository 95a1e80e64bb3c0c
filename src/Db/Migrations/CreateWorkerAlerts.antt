-- ===== src/Db/Migrations/CreateWorkerAlerts.antt =====
-- alembic/versions/20260623_0010_create_worker_alerts.py
use uav_dag_offload_platform.Common.{true, false, some, List, [], ◌∷◌}
use uav_dag_offload_platform.Db.Migrations.Operations.{
  Operation, Revision, uuid, string, text, datetime_tz, json, no_default, now, column, is_in,
  ascending, check, primary_key, create_table, drop_table, create_index, drop_index,
}

abbrev upgrade_create_worker_alerts : List Operation
upgrade_create_worker_alerts =
    create_table "worker_alerts"
      (column "id" uuid false no_default
        ∷ column "alert_type" (string 64) false no_default
        ∷ column "severity" (string 16) false no_default
        ∷ column "worker_name" (string 128) true no_default
        ∷ column "execution_id" uuid true no_default
        ∷ column "celery_task_id" (string 255) true no_default
        ∷ column "message" text false no_default
        ∷ column "details" json false no_default
        ∷ column "created_at" datetime_tz false now
        ∷ [])
      (check "ck_worker_alerts_alert_type" (is_in "alert_type" ("CELERY_RETRY_EXHAUSTED" ∷ []))
        ∷ check "ck_worker_alerts_severity" (is_in "severity" ("WARNING" ∷ "ERROR" ∷ []))
        ∷ primary_key ("id" ∷ [])
        ∷ [])
    ∷ create_index "idx_worker_alerts_execution_id" "worker_alerts" (ascending "execution_id" ∷ [])
    ∷ create_index "idx_worker_alerts_celery_task_id" "worker_alerts"
        (ascending "celery_task_id" ∷ [])
    ∷ create_index "idx_worker_alerts_alert_type" "worker_alerts" (ascending "alert_type" ∷ [])
    ∷ []

abbrev downgrade_create_worker_alerts : List Operation
downgrade_create_worker_alerts =
    drop_index "idx_worker_alerts_alert_type" "worker_alerts"
    ∷ drop_index "idx_worker_alerts_celery_task_id" "worker_alerts"
    ∷ drop_index "idx_worker_alerts_execution_id" "worker_alerts"
    ∷ drop_table "worker_alerts"
    ∷ []

abbrev pub create_worker_alerts : Revision
create_worker_alerts = record {
  revision = "20260623_0010";
  down_revision = some "20260623_0009";
  upgrade = upgrade_create_worker_alerts;
  downgrade = downgrade_create_worker_alerts;
}
