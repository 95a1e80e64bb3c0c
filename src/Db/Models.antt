-- ===== src/Db/Models.antt =====
-- app/db/models: one record for each mapped class, with its columns. Ids (UUIDs) and points of time
-- are numbers; a Numeric column is the number of its last decimal place (hundredths at scale 2);
-- JSON columns and `updated_at`, which the program only stores, are left out.
use uav_dag_offload_platform.Common.{ℕ, String, Bool, Option}
use uav_dag_offload_platform.Common.Int.{ℤ}
use uav_dag_offload_platform.Domain.Enums.{
  NodeType, NodeStatus, WorkerStatus, WorkerAlertType, AlertSeverity, TaskStatus, SubtaskStatus,
  SubtaskExecutionConstraint, SchedulePlanStatus, ExecutionStatus, SchedulerStrategyName,
}

abbrev pub Uuid : Type 0
Uuid = ℕ

abbrev pub Datetime : Type 0
Datetime = ℕ

pub record DagTask : Type 0 where
  pub id : Uuid
  pub name : String
  pub status : TaskStatus
  pub priority : ℕ
  pub deadline_at : Option Datetime
  pub submitted_by : Option String
  pub failure_reason : Option String
  pub created_at : Datetime
  pub scheduled_at : Option Datetime
  pub started_at : Option Datetime
  pub finished_at : Option Datetime

pub record DagSubtask : Type 0 where
  pub id : Uuid
  pub task_id : Uuid
  pub external_id : String
  pub name : String
  pub status : SubtaskStatus
  pub execution_constraint : SubtaskExecutionConstraint
  pub compute_load : ℕ
  pub input_data_size_mb : ℕ
  pub output_data_size_mb : ℕ
  pub max_retries : ℕ
  pub retry_count : ℕ
  pub failure_reason : Option String
  pub created_at : Datetime
  pub started_at : Option Datetime
  pub finished_at : Option Datetime

pub record DagDependency : Type 0 where
  pub id : Uuid
  pub task_id : Uuid
  pub predecessor_subtask_id : Uuid
  pub successor_subtask_id : Uuid

pub record SchedulePlan : Type 0 where
  pub id : Uuid
  pub task_id : Uuid
  pub strategy_name : SchedulerStrategyName
  pub status : SchedulePlanStatus
  pub estimated_total_duration_ms : Option ℤ
  pub estimated_total_energy : Option ℤ
  pub created_at : Datetime
  pub applied_at : Option Datetime

pub record SchedulePlanItem : Type 0 where
  pub id : Uuid
  pub plan_id : Uuid
  pub subtask_id : Uuid
  pub assigned_node_id : Uuid
  pub estimated_compute_duration_ms : Option ℤ
  pub estimated_transfer_duration_ms : Option ℤ
  pub estimated_energy : Option ℤ
  pub decision_reason : Option String

pub record ExecutionRecord : Type 0 where
  pub id : Uuid
  pub task_id : Uuid
  pub subtask_id : Uuid
  pub node_id : Uuid
  pub plan_item_id : Option Uuid
  pub attempt : ℕ
  pub status : ExecutionStatus
  pub started_at : Option Datetime
  pub finished_at : Option Datetime
  pub duration_ms : Option ℕ
  pub output_summary : Option String
  pub failure_reason : Option String
  pub celery_task_id : Option String
  pub created_at : Datetime

pub record ExecutionRevokeEvent : Type 0 where
  pub id : Uuid
  pub task_id : Uuid
  pub execution_id : Uuid
  pub celery_task_id : String
  pub success : Bool
  pub error_message : Option String
  pub requested_at : Datetime

pub record Node : Type 0 where
  pub id : Uuid
  pub name : String
  pub node_type : NodeType
  pub status : NodeStatus
  pub cpu_capacity : ℕ
  pub memory_capacity_mb : ℕ
  pub network_address : Option String
  pub description : Option String
  pub last_heartbeat_at : Option Datetime
  pub created_at : Datetime

-- Without `latitude` and `longitude`, which the program only stores.
pub record NodeStatusRecord : Type 0 where
  pub id : Uuid
  pub node_id : Uuid
  pub battery_level : Option ℕ
  pub cpu_usage : ℕ
  pub memory_usage : ℕ
  pub network_quality : Option ℕ
  pub bandwidth_mbps : Option ℕ
  pub current_load : Option ℕ
  pub queue_length : Option ℕ
  pub reported_at : Datetime

pub record WorkerHeartbeat : Type 0 where
  pub id : Uuid
  pub worker_name : String
  pub hostname : String
  pub process_id : Option ℕ
  pub status : WorkerStatus
  pub current_execution_id : Option Uuid
  pub last_seen_at : Datetime

pub record WorkerAlert : Type 0 where
  pub id : Uuid
  pub alert_type : WorkerAlertType
  pub severity : AlertSeverity
  pub worker_name : Option String
  pub execution_id : Option Uuid
  pub celery_task_id : Option String
  pub message : String
  pub created_at : Datetime
