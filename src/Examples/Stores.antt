-- ===== src/Examples/Stores.antt =====
-- A task of two subtasks, of which the second depends on the first: before its plan is started, and
-- with the first subtask running.
use uav_dag_offload_platform.Common.{ℕ, String, none, some, [], ◌∷◌}
use uav_dag_offload_platform.Domain.Enums.{
  TaskStatus, SubtaskStatus, SubtaskExecutionConstraint, SchedulePlanStatus, ExecutionStatus,
  SchedulerStrategyName,
}
use uav_dag_offload_platform.Db.Models.{
  DagTask, DagSubtask, DagDependency, SchedulePlan, SchedulePlanItem, ExecutionRecord,
}
use uav_dag_offload_platform.Db.Store.{Store, empty_store}
use uav_dag_offload_platform.Services.Execution.{Report}

abbrev pub survey : TaskStatus → DagTask
survey status = record {
  id = 1;
  name = "survey";
  status = status;
  priority = 0;
  deadline_at = none;
  submitted_by = none;
  failure_reason = none;
  created_at = 0;
  scheduled_at = none;
  started_at = none;
  finished_at = none;
}

abbrev pub step : ℕ → String → SubtaskStatus → ℕ → DagSubtask
step id name status max_retries = record {
  id = id;
  task_id = 1;
  external_id = name;
  name = name;
  status = status;
  execution_constraint = SubtaskExecutionConstraint.offloadable;
  compute_load = 1000;
  input_data_size_mb = 500;
  output_data_size_mb = 100;
  max_retries = max_retries;
  retry_count = 0;
  failure_reason = none;
  created_at = 0;
  started_at = none;
  finished_at = none;
}

abbrev pub order : DagDependency
order = record { id = 4; task_id = 1; predecessor_subtask_id = 2; successor_subtask_id = 3 }

abbrev pub plan : SchedulePlan
plan = record {
  id = 5;
  task_id = 1;
  strategy_name = SchedulerStrategyName.greedy;
  status = SchedulePlanStatus.generated;
  estimated_total_duration_ms = none;
  estimated_total_energy = none;
  created_at = 0;
  applied_at = none;
}

abbrev pub item : SchedulePlanItem
item = record {
  id = 6;
  plan_id = 5;
  subtask_id = 2;
  assigned_node_id = 7;
  estimated_compute_duration_ms = none;
  estimated_transfer_duration_ms = none;
  estimated_energy = none;
  decision_reason = none;
}

abbrev pub run : ExecutionRecord
run = record {
  id = 8;
  task_id = 1;
  subtask_id = 2;
  node_id = 7;
  plan_item_id = some 6;
  attempt = 1;
  status = ExecutionStatus.running;
  started_at = some 10;
  finished_at = none;
  duration_ms = none;
  output_summary = none;
  failure_reason = none;
  celery_task_id = some "celery-1";
  created_at = 10;
}

abbrev pub planned : Store
planned = record empty_store {
  next_uuid = 8;
  tasks = survey TaskStatus.scheduled ∷ [];
  subtasks = step 2 "capture" SubtaskStatus.ready 1 ∷ step 3 "detect" SubtaskStatus.waiting 0 ∷ [];
  dependencies = order ∷ [];
  schedule_plans = plan ∷ [];
  schedule_plan_items = item ∷ [];
}

-- The first subtask runs, with this many retries; the task has this status.
abbrev pub in_flight : TaskStatus → ℕ → Store
in_flight status max_retries = record planned {
  next_uuid = 9;
  tasks = survey status ∷ [];
  subtasks =
      step 2 "capture" SubtaskStatus.running max_retries
      ∷ step 3 "detect" SubtaskStatus.waiting 0
      ∷ [];
  execution_records = run ∷ [];
}

abbrev pub report : ExecutionStatus → Report
report status = record {
  execution_id = 8;
  status = status;
  duration_ms = some 120;
  output_summary = none;
  failure_reason = none;
}
