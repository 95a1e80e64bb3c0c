-- ===== src/Db/Migrations/CreateNodeTables.antt =====
-- alembic/versions/20260521_0001_create_node_tables.py
use uav_dag_offload_platform.Common.{true, false, none, List, [], ◌∷◌}
use uav_dag_offload_platform.Db.Migrations.Operations.{
  Operation, Revision, uuid, string, text, integer, numeric, datetime_tz, no_default, now, column,
  is_in, positive, at_least, between, null_or, ascending, descending, check, primary_key, unique,
  foreign_key, create_table, drop_table, create_index, drop_index,
}

abbrev upgrade_create_node_tables : List Operation
upgrade_create_node_tables =
    create_table "nodes"
      (column "id" uuid false no_default
        ∷ column "name" (string 128) false no_default
        ∷ column "node_type" (string 16) false no_default
        ∷ column "status" (string 16) false no_default
        ∷ column "cpu_capacity" (numeric 10 2) false no_default
        ∷ column "memory_capacity_mb" integer false no_default
        ∷ column "network_address" (string 255) true no_default
        ∷ column "description" text true no_default
        ∷ column "last_heartbeat_at" datetime_tz true no_default
        ∷ column "created_at" datetime_tz false now
        ∷ column "updated_at" datetime_tz false now
        ∷ [])
      (check "ck_nodes_node_type" (is_in "node_type" ("UAV" ∷ "EDGE" ∷ []))
        ∷ check "ck_nodes_status" (is_in "status" ("ONLINE" ∷ "BUSY" ∷ "OFFLINE" ∷ []))
        ∷ check "ck_nodes_cpu_capacity_positive" (positive "cpu_capacity")
        ∷ check "ck_nodes_memory_capacity_positive" (positive "memory_capacity_mb")
        ∷ primary_key ("id" ∷ [])
        ∷ unique "uq_nodes_name" ("name" ∷ [])
        ∷ [])
    ∷ create_index "ix_nodes_name" "nodes" (ascending "name" ∷ [])
    ∷ create_index "idx_nodes_type_status" "nodes" (ascending "node_type" ∷ ascending "status" ∷ [])
    ∷ create_index "idx_nodes_last_heartbeat" "nodes" (ascending "last_heartbeat_at" ∷ [])
    ∷ create_table "node_status_records"
        (column "id" uuid false no_default
          ∷ column "node_id" uuid false no_default
          ∷ column "battery_level" (numeric 5 2) true no_default
          ∷ column "cpu_usage" (numeric 5 2) false no_default
          ∷ column "memory_usage" (numeric 5 2) false no_default
          ∷ column "network_quality" (numeric 5 2) true no_default
          ∷ column "bandwidth_mbps" (numeric 10 2) true no_default
          ∷ column "latitude" (numeric 10 7) true no_default
          ∷ column "longitude" (numeric 10 7) true no_default
          ∷ column "current_load" integer true no_default
          ∷ column "queue_length" integer true no_default
          ∷ column "reported_at" datetime_tz false no_default
          ∷ column "created_at" datetime_tz false now
          ∷ [])
        (check "ck_node_status_cpu_usage_range" (between "cpu_usage" 0 100)
          ∷ check "ck_node_status_memory_usage_range" (between "memory_usage" 0 100)
          ∷ check "ck_node_status_battery_range"
              (null_or "battery_level" (between "battery_level" 0 100))
          ∷ check "ck_node_status_network_quality_range"
              (null_or "network_quality" (between "network_quality" 0 100))
          ∷ check "ck_node_status_bandwidth_non_negative"
              (null_or "bandwidth_mbps" (at_least "bandwidth_mbps" 0))
          ∷ foreign_key ("node_id" ∷ []) ("nodes.id" ∷ [])
          ∷ primary_key ("id" ∷ [])
          ∷ [])
    ∷ create_index "ix_node_status_records_node_id" "node_status_records" (ascending "node_id" ∷ [])
    ∷ create_index "idx_node_status_node_time" "node_status_records"
        (ascending "node_id" ∷ descending "reported_at" ∷ [])
    ∷ create_index "idx_node_status_reported_at" "node_status_records"
        (ascending "reported_at" ∷ [])
    ∷ []

abbrev downgrade_create_node_tables : List Operation
downgrade_create_node_tables =
    drop_index "idx_node_status_reported_at" "node_status_records"
    ∷ drop_index "idx_node_status_node_time" "node_status_records"
    ∷ drop_index "ix_node_status_records_node_id" "node_status_records"
    ∷ drop_table "node_status_records"
    ∷ drop_index "idx_nodes_last_heartbeat" "nodes"
    ∷ drop_index "idx_nodes_type_status" "nodes"
    ∷ drop_index "ix_nodes_name" "nodes"
    ∷ drop_table "nodes"
    ∷ []

abbrev pub create_node_tables : Revision
create_node_tables = record {
  revision = "20260521_0001";
  down_revision = none;
  upgrade = upgrade_create_node_tables;
  downgrade = downgrade_create_node_tables;
}
