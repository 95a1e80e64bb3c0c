-- ===== src/Db/Migrations/CreateWorkerHeartbeats.antt =====
-- alembic/versions/20260622_0007_create_worker_heartbeats.py
use uav_dag_offload_platform.Common.{true, false, some, List, [], ◌∷◌}
use uav_dag_offload_platform.Db.Migrations.Operations.{
  Operation, Revision, uuid, string, integer, datetime_tz, no_default, now, column, is_in,
  ascending, descending, check, primary_key, unique, create_table, drop_table, create_index,
  drop_index,
}

abbrev upgrade_create_worker_heartbeats : List Operation
upgrade_create_worker_heartbeats =
    create_table "worker_heartbeats"
      (column "id" uuid false no_default
        ∷ column "worker_name" (string 128) false no_default
        ∷ column "hostname" (string 128) false no_default
        ∷ column "process_id" integer true no_default
        ∷ column "status" (string 16) false no_default
        ∷ column "current_execution_id" uuid true no_default
        ∷ column "last_seen_at" datetime_tz false no_default
        ∷ column "created_at" datetime_tz false now
        ∷ column "updated_at" datetime_tz false now
        ∷ [])
      (check "ck_worker_heartbeats_status" (is_in "status" ("ONLINE" ∷ "BUSY" ∷ []))
        ∷ primary_key ("id" ∷ [])
        ∷ unique "uq_worker_heartbeats_worker_name" ("worker_name" ∷ [])
        ∷ [])
    ∷ create_index "idx_worker_heartbeats_status" "worker_heartbeats" (ascending "status" ∷ [])
    ∷ create_index "idx_worker_heartbeats_last_seen_at" "worker_heartbeats"
        (descending "last_seen_at" ∷ [])
    ∷ []

abbrev downgrade_create_worker_heartbeats : List Operation
downgrade_create_worker_heartbeats =
    drop_index "idx_worker_heartbeats_last_seen_at" "worker_heartbeats"
    ∷ drop_index "idx_worker_heartbeats_status" "worker_heartbeats"
    ∷ drop_table "worker_heartbeats"
    ∷ []

abbrev pub create_worker_heartbeats : Revision
create_worker_heartbeats = record {
  revision = "20260622_0007";
  down_revision = some "20260610_0006";
  upgrade = upgrade_create_worker_heartbeats;
  downgrade = downgrade_create_worker_heartbeats;
}
