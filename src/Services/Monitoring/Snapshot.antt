-- ===== src/Services/Monitoring/Snapshot.antt =====
-- app/repositories/monitoring_repository.py: the tables, counted.
use uav_dag_offload_platform.Common.{
  ℕ, ◌+◌, ◌≡◌, String, Bool, true, false, Option, none, some, List, [], ◌∷◌, length,
}
use uav_dag_offload_platform.Common.Equality.{◌==◌, string_eq}
use uav_dag_offload_platform.Domain.Enums.{
  StrEnum, node_type_str, node_status_str, task_status_str, subtask_status_str,
  schedule_plan_status_str, execution_status_str,
}
use uav_dag_offload_platform.Db.Models.{Node, DagTask, DagSubtask, SchedulePlan, ExecutionRecord}
use uav_dag_offload_platform.Db.Table.{count_where}
use uav_dag_offload_platform.Db.Counts.{
  Counts, group_count, total, total-group_count, count_at, count_at-group_count,
}
use uav_dag_offload_platform.Db.Store.{Store}

pub record MonitoringSnapshot : Type 0 where
  pub node_count : ℕ
  pub task_count : ℕ
  pub subtask_count : ℕ
  pub schedule_plan_count : ℕ
  pub execution_count : ℕ
  pub execution_duration_sum_ms : ℕ
  pub execution_duration_count : ℕ
  pub nodes_by_type : Counts
  pub nodes_by_status : Counts
  pub tasks_by_status : Counts
  pub subtasks_by_status : Counts
  pub schedule_plans_by_status : Counts
  pub executions_by_status : Counts

abbrev or_zero : Option ℕ → ℕ
or_zero none = 0
or_zero (some n) = n

abbrev is_some : Option ℕ → Bool
is_some none = false
is_some (some n) = true

unfoldable pub duration_sum_ms : List ExecutionRecord → ℕ
duration_sum_ms [] = 0
duration_sum_ms (r ∷ rows) = or_zero r.duration_ms + duration_sum_ms rows

unfoldable pub duration_count : List ExecutionRecord → ℕ
unfolding count_where
duration_count rows = count_where (λ r. is_some r.duration_ms) rows

unfoldable pub load_snapshot : Store → MonitoringSnapshot
unfolding group_count duration_sum_ms duration_count
load_snapshot s = record {
  node_count = length s.nodes;
  task_count = length s.tasks;
  subtask_count = length s.subtasks;
  schedule_plan_count = length s.schedule_plans;
  execution_count = length s.execution_records;
  execution_duration_sum_ms = duration_sum_ms s.execution_records;
  execution_duration_count = duration_count s.execution_records;
  nodes_by_type = group_count (λ r. r.node_type) s.nodes;
  nodes_by_status = group_count (λ r. r.status) s.nodes;
  tasks_by_status = group_count (λ r. r.status) s.tasks;
  subtasks_by_status = group_count (λ r. r.status) s.subtasks;
  schedule_plans_by_status = group_count (λ r. r.status) s.schedule_plans;
  executions_by_status = group_count (λ r. r.status) s.execution_records;
}

-- The groups of a column: they add up to the total of the table, and under each text there are as many
-- as rows whose column has it.
pub record Groups {A E : Type 0} ⦃e : StrEnum E⦄ (column : A → E) (rows : List A) (counts : Counts)
    (count : ℕ) : Type 0 where
  pub sum : total counts ≡ count
  pub each :
      (text : String) → count_at text counts ≡ count_where (λ r. e.value (column r) == text) rows

-- The groups that a snapshot has of the tables of a store.
pub record IsConsistent (s : Store) (snapshot : MonitoringSnapshot) : Type 0 where
  pub node_types :
      Groups {A = Node} (λ r. r.node_type) s.nodes snapshot.nodes_by_type snapshot.node_count
  pub node_statuses :
      Groups {A = Node} (λ r. r.status) s.nodes snapshot.nodes_by_status snapshot.node_count
  pub task_statuses :
      Groups {A = DagTask} (λ r. r.status) s.tasks snapshot.tasks_by_status snapshot.task_count
  pub subtask_statuses :
      Groups {A = DagSubtask}
        (λ r. r.status)
        s.subtasks
        snapshot.subtasks_by_status
        snapshot.subtask_count
  pub plan_statuses :
      Groups {A = SchedulePlan}
        (λ r. r.status)
        s.schedule_plans
        snapshot.schedule_plans_by_status
        snapshot.schedule_plan_count
  pub execution_statuses :
      Groups {A = ExecutionRecord}
        (λ r. r.status)
        s.execution_records
        snapshot.executions_by_status
        snapshot.execution_count

group_count-Groups :
    {A E : Type 0} ⦃e : StrEnum E⦄ (column : A → E) (rows : List A)
    → Groups column rows (group_count column rows) (length rows)
group_count-Groups column rows = record {
  sum = total-group_count column rows;
  each = λ text. count_at-group_count column text rows;
}

-- In a snapshot the nodes by type and by status, and the tasks, subtasks, plans and executions by
-- status, have under each text just as many as the table has rows whose column has this text; and they
-- add up to the number of its rows.
pub load_snapshot-IsConsistent : (s : Store) → IsConsistent s (load_snapshot s)
unfolding load_snapshot
load_snapshot-IsConsistent s = record {
  node_types = group_count-Groups (λ r. r.node_type) s.nodes;
  node_statuses = group_count-Groups (λ r. r.status) s.nodes;
  task_statuses = group_count-Groups (λ r. r.status) s.tasks;
  subtask_statuses = group_count-Groups (λ r. r.status) s.subtasks;
  plan_statuses = group_count-Groups (λ r. r.status) s.schedule_plans;
  execution_statuses = group_count-Groups (λ r. r.status) s.execution_records;
}
