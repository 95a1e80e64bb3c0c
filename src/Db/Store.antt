-- ===== src/Db/Store.antt =====
-- The database as one session sees it: a table for each mapped class. `next_uuid` stands for
-- `uuid4`, which yields an id that no row has: it lies above all ids in use.
use uav_dag_offload_platform.Common.{ℕ, List, []}
use uav_dag_offload_platform.Db.Table.{HasId}
use uav_dag_offload_platform.Db.Models.{
  DagTask, DagSubtask, DagDependency, SchedulePlan, SchedulePlanItem, ExecutionRecord,
  ExecutionRevokeEvent, Node, NodeStatusRecord, WorkerHeartbeat, WorkerAlert,
}

pub record Store : Type 0 where
  pub next_uuid : ℕ
  pub tasks : List DagTask
  pub subtasks : List DagSubtask
  pub dependencies : List DagDependency
  pub schedule_plans : List SchedulePlan
  pub schedule_plan_items : List SchedulePlanItem
  pub execution_records : List ExecutionRecord
  pub revoke_events : List ExecutionRevokeEvent
  pub nodes : List Node
  pub node_status_records : List NodeStatusRecord
  pub worker_heartbeats : List WorkerHeartbeat
  pub worker_alerts : List WorkerAlert

abbrev pub empty_store : Store
empty_store = record {
  next_uuid = 0;
  tasks = [];
  subtasks = [];
  dependencies = [];
  schedule_plans = [];
  schedule_plan_items = [];
  execution_records = [];
  revoke_events = [];
  nodes = [];
  node_status_records = [];
  worker_heartbeats = [];
  worker_alerts = [];
}

instance abbrev pub task_key : HasId DagTask
task_key = record { key = λ r. r.id }

instance abbrev pub subtask_key : HasId DagSubtask
subtask_key = record { key = λ r. r.id }

instance abbrev pub schedule_plan_key : HasId SchedulePlan
schedule_plan_key = record { key = λ r. r.id }

instance abbrev pub execution_record_key : HasId ExecutionRecord
execution_record_key = record { key = λ r. r.id }

instance abbrev pub node_key : HasId Node
node_key = record { key = λ r. r.id }

instance abbrev pub worker_heartbeat_key : HasId WorkerHeartbeat
worker_heartbeat_key = record { key = λ r. r.id }
