-- ===== src/Examples/Metrics.antt =====
-- app/services/metrics_service.py on the small store.
use uav_dag_offload_platform.Common.{none, [], ◌∷◌}
use uav_dag_offload_platform.Domain.Enums.{TaskStatus, NodeType, NodeStatus}
use uav_dag_offload_platform.Db.Models.{Node}
use uav_dag_offload_platform.Db.Store.{Store, node_key, task_key}
use uav_dag_offload_platform.Examples.Scheduling.{thousandths}
use uav_dag_offload_platform.Examples.Stores.{in_flight}

abbrev drone : Node
drone = record {
  id = 7;
  name = "drone";
  node_type = NodeType.uav;
  status = NodeStatus.online;
  cpu_capacity = 400;
  memory_capacity_mb = 1024;
  network_address = none;
  description = none;
  last_heartbeat_at = none;
  created_at = 0;
}

abbrev flying : Store
flying = record (in_flight TaskStatus.running 1) { nodes = drone ∷ [] }
